-- ===== src/Cache/Secrets.antt =====
-- src/services/cache/instance-secrets-cache.ts: the passwords of the instances, by instance id.
-- Requests are numbered, so that a late answer can be told from that of a newer request. A caller
-- that waits for a request gets its answer, or throws its error, whatever the cache does with it.
pub mod Laws
use obs_instance_manager.Prelude.{
  ℕ, ◌+◌, String, Bool, true, false, Option, none, some, ltb, eqb, if◌then◌else◌,
}
use obs_instance_manager.Prelude.Dict
use obs_instance_manager.Prelude.Dict.{Dict}
use obs_instance_manager.Cache.Single.{Read, served, waits}
use obs_instance_manager.Instances.Services.{InstanceSecrets}

pub record Entry : Type 0 where
  pub secrets : InstanceSecrets
  pub expires_at : ℕ

pub record SecretsCache : Type 0 where
  pub cache : Dict Entry
  pub in_flight : Dict ℕ
  pub sent : ℕ

-- Joining the request on its way, or sending one.
pub join_or_send : String → SecretsCache → Read InstanceSecrets × SecretsCache
join_or_send id s = elim (Dict.get s.in_flight id) [
  | some r ↦ (waits r, s)
  | none ↦
      (waits s.sent, record s { in_flight = Dict.set s.in_flight id s.sent; sent = s.sent + 1 })
]

-- The body of `getInstanceSecrets` on the entry that the map holds.
pub from_entry : ℕ → String → Option Entry → SecretsCache → Read InstanceSecrets × SecretsCache
from_entry now id none s = join_or_send id s
from_entry now id (some hit) s =
    if ltb now hit.expires_at
    then (served hit.secrets, s)
    else join_or_send id (record s { cache = Dict.remove s.cache id })

pub get_instance_secrets : ℕ → String → SecretsCache → Read InstanceSecrets × SecretsCache
get_instance_secrets now id s = from_entry now id (Dict.get s.cache id) s

-- `inFlight.get(instanceId) === request`
abbrev pub is_current : String → ℕ → SecretsCache → Bool
is_current id r s = elim (Dict.get s.in_flight id) [ none ↦ false | some q ↦ eqb q r ]

-- Request `r` for the instance is answered: `then`, and then `finally`.
pub answered : ℕ → ℕ → String → ℕ → InstanceSecrets → SecretsCache → SecretsCache
answered ttl_ms now id r secrets s =
    if is_current id r s
    then record s {
      cache = Dict.set s.cache id (record { secrets = secrets; expires_at = now + ttl_ms });
      in_flight = Dict.remove s.in_flight id;
    }
    else s

-- It fails: `finally` alone.
pub request_failed : String → ℕ → SecretsCache → SecretsCache
request_failed id r s =
    if is_current id r s then record s { in_flight = Dict.remove s.in_flight id } else s

pub forget_instance_secrets : String → SecretsCache → SecretsCache
forget_instance_secrets id s = record s {
  cache = Dict.remove s.cache id;
  in_flight = Dict.remove s.in_flight id;
}
