-- ===== src/Auth/CommandKey.antt =====
-- src/services/auth/command-key.ts and src/middleware/command-auth.ts: the key of the public /obs
-- route. SHA-256 is a parameter. What rest-api answers to the live read of the node row (its
-- `command_key_hash`) and the clock before and after that read are arguments of each call.
pub mod Laws
use obs_instance_manager.Prelude.{
  ℕ, ◌+◌, String, Bool, true, false, not, Option, none, some, leb, is_some, or_else, bearer_token,
  if◌then◌else◌, ◌==◌,
}
use obs_instance_manager.Effects.{Result, ok, err}
use obs_instance_manager.Limits.{Verdict, refuse, next}

abbrev pub mismatch_refresh_cooldown_ms : ℕ
mismatch_refresh_cooldown_ms = 30000

pub record CommandKey : Type 0 where
  pub hash : Option String
  pub last_fetch_at : ℕ

abbrev pub no_key : CommandKey
no_key = record { hash = none; last_fetch_at = 0 }

-- What a read of the node row answers, and the time at which it does.
pub record Answer : Type 0 where
  pub row : Result (Option String)
  pub at : ℕ

pub load_command_key_hash : Answer → CommandKey → CommandKey
load_command_key_hash answer s = elim answer.row [
  | ok hash ↦ record { hash = hash; last_fetch_at = answer.at }
  | err e ↦ s
]

pub has_command_key : CommandKey → Bool
has_command_key s = is_some s.hash

-- The tick of the retry loop.
pub retry_command_key_load_if_missing : Answer → CommandKey → CommandKey
retry_command_key_load_if_missing answer s =
    if has_command_key s then s else load_command_key_hash answer s

module _ (sha256 : String → String) where
  -- An empty hash counts as none.
  unfoldable pub matches : String → CommandKey → Bool
  matches token s = elim s.hash [
    | none ↦ false
    | some hash ↦ if hash == "" then false else sha256 token == hash
  ]

  -- Whether a call whose key does not match reads the row.
  abbrev pub fetches : ℕ → String → CommandKey → Bool
  fetches now token s =
      if matches token s then false else leb (s.last_fetch_at + mismatch_refresh_cooldown_ms) now

  unfoldable pub verify_command_key : ℕ → Answer → String → CommandKey → Bool × CommandKey
  verify_command_key now answer token s =
      if matches token s
      then (true, s)
      else if leb (s.last_fetch_at + mismatch_refresh_cooldown_ms) now
      then (let s' = load_command_key_hash answer s in (matches token s', s'))
      else (false, s)

  -- The middleware on the request's Authorization header.
  unfoldable pub command_auth_middleware :
      ℕ → Answer → Option String → CommandKey → Verdict × CommandKey
  command_auth_middleware now answer header s =
      let token = or_else (bearer_token header) "" in
      if token == ""
      then (refuse 401, s)
      else (let (valid, s') = verify_command_key now answer token s in
          (if valid then next else if has_command_key s' then refuse 401 else refuse 503, s'))
