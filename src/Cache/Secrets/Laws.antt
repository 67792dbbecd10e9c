-- ===== src/Cache/Secrets/Laws.antt =====
-- The passwords of a deleted instance do not come back, and are never served past their time.
use obs_instance_manager.Prelude.{
  ℕ, ◌+◌, String, ◌≡◌, ◌≢◌, inl, inr, Option, none, some, List, [], ◌∷◌, arith, ltb, ◌==◌, eq_iff,
  eq_refl, Option-cases, Bool-cases,
}
use obs_instance_manager.Prelude.Dict
use obs_instance_manager.Prelude.Dict.{Dict, get-set, get-remove}
use obs_instance_manager.Instances.Services.{InstanceSecrets}
use obs_instance_manager.Cache.Secrets.{
  Entry, SecretsCache, join_or_send, from_entry, get_instance_secrets, is_current, answered,
  request_failed, forget_instance_secrets,
}

pub data Event : Type 0 where
  gets : ℕ → String → Event
  answers : ℕ → String → ℕ → InstanceSecrets → Event
  fails : String → ℕ → Event
  forgets : String → Event

unfoldable pub after : ℕ → Event → SecretsCache → SecretsCache
after ttl_ms (gets now id) s = (get_instance_secrets now id s).1
after ttl_ms (answers now id r secrets) s = answered ttl_ms now id r secrets s
after ttl_ms (fails id r) s = request_failed id r s
after ttl_ms (forgets id) s = forget_instance_secrets id s

unfoldable pub history : ℕ → List Event → SecretsCache → SecretsCache
history ttl_ms [] s = s
history ttl_ms (e ∷ es) s = history ttl_ms es (after ttl_ms e s)

-- No event of the history reads the secrets of the instance.
abbrev pub NoGet : String → Event → Type 0
NoGet id (gets now j) = j ≢ id
NoGet id _ = Unit

abbrev pub NoGets : String → List Event → Type 0
NoGets id [] = Unit
NoGets id (e ∷ es) = NoGet id e × NoGets id es

-- Neither an entry nor a request of the instance is held.
abbrev pub Forgotten : String → SecretsCache → Type 0
Forgotten id s = (Dict.get s.cache id ≡ none) × (Dict.get s.in_flight id ≡ none)

join_or_send-Forgotten :
    (id j : String) (s : SecretsCache) → j ≢ id → Forgotten id s → Forgotten id (join_or_send j s).1
unfolding join_or_send
join_or_send-Forgotten id j s n (c, f) = elim (Option-cases (Dict.get s.in_flight j)) [
  | inr (r, e) ↦ rw (e, join_or_send) (c, f)
  | inl e ↦ rw (e, join_or_send) (c, ground (arith, get-set s.in_flight j id s.sent, eq_iff j id))
]

after-Forgotten :
    (ttl_ms : ℕ) (id : String) (e : Event) (s : SecretsCache)
    → NoGet id e
    → Forgotten id s
    → Forgotten id (after ttl_ms e s)
unfolding after get_instance_secrets from_entry answered request_failed forget_instance_secrets
after-Forgotten ttl_ms id (gets now j) s n (c, f) = go (Dict.get s.cache j)
  where
    go : (hit : Option Entry) → Forgotten id (from_entry now j hit s).1
    go none = join_or_send-Forgotten id j s n (c, f)
    go (some hit) = elim (Bool-cases (ltb now hit.expires_at)) [
      | inl e ↦ rw e (c, f)
      | inr e ↦ rw e (
          join_or_send-Forgotten id j (record s { cache = Dict.remove s.cache j }) n
            (ground (arith, get-remove s.cache j id), f))
    ]
after-Forgotten ttl_ms id (answers now j r secrets) s n (c, f) = elim (Bool-cases (j == id)) [
  | inl e ↦ ground (arith, eq_iff j id)
  | inr e ↦ elim (Bool-cases (is_current j r s)) [
    | inl q ↦ rw q (
      ground
          (arith, get-set s.cache j id (record { secrets = secrets; expires_at = now + ttl_ms })),
      ground (arith, get-remove s.in_flight j id),
    )
    | inr q ↦ rw q (c, f)
  ]
]
after-Forgotten ttl_ms id (fails j r) s n (c, f) = elim (Bool-cases (is_current j r s)) [
  | inl q ↦ rw q (c, ground (arith, get-remove s.in_flight j id))
  | inr q ↦ rw q (c, f)
]
after-Forgotten ttl_ms id (forgets j) s n (c, f) =
    (ground (arith, get-remove s.cache j id), ground (arith, get-remove s.in_flight j id))

history-Forgotten :
    (ttl_ms : ℕ) (id : String) (es : List Event) (s : SecretsCache)
    → NoGets id es
    → Forgotten id s
    → Forgotten id (history ttl_ms es s)
unfolding history
history-Forgotten ttl_ms id [] s n h = h
history-Forgotten ttl_ms id (e ∷ es) s (n, ns) h =
    history-Forgotten ttl_ms id es (after ttl_ms e s) ns (after-Forgotten ttl_ms id e s n h)

-- After an instance is forgotten, no late answer of a request that was on its way brings its
-- passwords back: until they are read again, the cache holds none, whatever else happens.
pub forgotten_stays :
    (ttl_ms : ℕ) (id : String) (es : List Event) (s : SecretsCache)
    → NoGets id es
    → Dict.get (history ttl_ms es (forget_instance_secrets id s)).cache id ≡ none
unfolding forget_instance_secrets
forgotten_stays ttl_ms id es s n =
    (history-Forgotten ttl_ms id es (forget_instance_secrets id s) n (
      ground (arith, get-remove s.cache id id, eq_refl id),
      ground (arith, get-remove s.in_flight id id, eq_refl id),
    )).0
