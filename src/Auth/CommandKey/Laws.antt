-- ===== src/Auth/CommandKey/Laws.antt =====
-- Which keys the /obs route takes, and how often bad keys reach rest-api.
use obs_instance_manager.Prelude.{
  ℕ, ◌+◌, ◌*◌, ◌≤◌, String, ◌≡◌, refl, subst, leb→le, le→leb, ◌≢◌, ◌↔◌, ◌⊎◌, inl, inr, true, false,
  Option, some, List, [], ◌∷◌, arith, leb, if◌then◌else◌, eq_iff, Option-cases, Bool-cases, or_else,
  bearer_token, length,
}
use obs_instance_manager.Effects.{ok}
use obs_instance_manager.Effects.Rules.{Result-cases}
use obs_instance_manager.Instances.Start.Signals.{IsOk, IsErr}
use obs_instance_manager.Limits.{next}
use obs_instance_manager.Auth.CommandKey.{
  CommandKey, Answer, load_command_key_hash, matches, fetches, verify_command_key,
  command_auth_middleware, mismatch_refresh_cooldown_ms,
}

module _ (sha256 : String → String) where
  matches_iff :
      (token : String) (s : CommandKey)
      → (matches sha256 token s ≡ true) ↔ ((s.hash ≡ some (sha256 token)) × (sha256 token ≢ ""))
  unfolding matches
  matches_iff token s = elim (Option-cases s.hash) [
    | inl e ↦ rw (e, matches) (ground arith)
    | inr (h, e) ↦ rw (e, matches) (ground (arith, eq_iff h "", eq_iff (sha256 token) h))
  ]

  verify_iff :
      (now : ℕ) (answer : Answer) (token : String) (s : CommandKey)
      → ((verify_command_key sha256 now answer token s).0 ≡ true) ↔ (
          (sha256 token ≢ "")
          × ((s.hash ≡ some (sha256 token))
              ⊎ ((s.last_fetch_at + mismatch_refresh_cooldown_ms ≤ now)
                  × (answer.row ≡ ok (some (sha256 token))))))
  unfolding verify_command_key load_command_key_hash
  verify_iff now answer token s = elim (Result-cases answer.row) [
    | inl (h, e) ↦
        rw (e, load_command_key_hash)
          (ground (
            arith,
            matches_iff token s,
            matches_iff token (record { hash = h; last_fetch_at = answer.at }),
          ))
    | inr (x, e) ↦ rw (e, load_command_key_hash) (ground (arith, matches_iff token s))
  ]

  -- The route lets a request through exactly when it carries a token whose SHA-256 is the hash
  -- held, or is the hash that rest-api answers after the cooldown: a rotated key is picked up at its
  -- first use.
  pub command_auth_iff :
      (now : ℕ) (answer : Answer) (header : Option String) (s : CommandKey)
      → let token = or_else (bearer_token header) "" in
        ((command_auth_middleware sha256 now answer header s).0 ≡ next) ↔ (
          (token ≢ "")
          × (sha256 token ≢ "")
          × ((s.hash ≡ some (sha256 token))
              ⊎ ((s.last_fetch_at + mismatch_refresh_cooldown_ms ≤ now)
                  × (answer.row ≡ ok (some (sha256 token))))))
  unfolding command_auth_middleware
  command_auth_iff now answer header s =
      let token = or_else (bearer_token header) "" in
      ground (arith, eq_iff token "", verify_iff now answer token s)

  -- How many calls of a sequence read the row.
  unfoldable pub fetch_count : List (ℕ × Answer × String) → CommandKey → ℕ
  fetch_count [] s = 0
  fetch_count ((now, answer, token) ∷ calls) s =
      let rest = fetch_count calls (verify_command_key sha256 now answer token s).1 in
      if fetches sha256 now token s then rest + 1 else rest

  load_command_key_hash-at :
      (answer : Answer) (s : CommandKey) (hash : Option String)
      → answer.row ≡ ok hash
      → (load_command_key_hash answer s).last_fetch_at ≡ answer.at
  unfolding load_command_key_hash
  load_command_key_hash-at answer s hash e = rw e refl

  -- The calls follow each other from one time to another, and every read of the row succeeds.
  abbrev pub Answered : ℕ → ℕ → List (ℕ × Answer × String) → Type 0
  Answered from to [] = from ≤ to
  Answered from to ((now, answer, token) ∷ calls) =
      (from ≤ now) × (now ≤ answer.at) × IsOk answer.row × Answered answer.at to calls

  -- While rest-api answers, the reads of the row that any keys cause are a cooldown apart: counted
  -- from the last read, as many cooldowns have passed as rows were read.
  fetch_count_bounds :
      (from to : ℕ) (calls : List (ℕ × Answer × String)) (s : CommandKey)
      → Answered from to calls
      → s.last_fetch_at ≤ from
      → s.last_fetch_at + mismatch_refresh_cooldown_ms * fetch_count calls s ≤ to
  unfolding fetch_count verify_command_key
  fetch_count_bounds from to [] s h l = omega (arith, h)
  fetch_count_bounds from to ((now, answer, token) ∷ calls) s (a, b, c, d) l =
      elim (Result-cases answer.row) [
        | inr (x, e) ↦ absurd (subst IsOk e c)
        | inl (hash, e) ↦ elim (Bool-cases (matches sha256 token s)) [
          | inl good ↦ rw good (fetch_count_bounds answer.at to calls s d (omega arith))
          | inr bad ↦ elim (Bool-cases (leb (s.last_fetch_at + mismatch_refresh_cooldown_ms) now)) [
            | inr early ↦ rw (bad, early) (fetch_count_bounds answer.at to calls s d (omega arith))
            | inl late ↦
                let s' = load_command_key_hash answer s in
                rw (bad, late)
                  (omega (
                    arith,
                    fetch_count_bounds answer.at to calls s' d
                        (omega (arith, load_command_key_hash-at answer s hash e)),
                    leb→le _ _ late,
                    load_command_key_hash-at answer s hash e,
                  ))
          ]
        ]
      ]

  -- The calls carry no matching key, the cooldown is over and rest-api fails.
  abbrev pub Unanswered : CommandKey → List (ℕ × Answer × String) → Type 0
  Unanswered s [] = Unit
  Unanswered s ((now, answer, token) ∷ calls) =
      (matches sha256 token s ≡ false)
      × (s.last_fetch_at + mismatch_refresh_cooldown_ms ≤ now)
      × IsErr answer.row
      × Unanswered s calls

  -- The cooldown counts from the last read that succeeded: while rest-api fails, every call with a
  -- wrong key reads the row again.
  pub fetches_while_failing :
      (calls : List (ℕ × Answer × String)) (s : CommandKey)
      → Unanswered s calls
      → fetch_count calls s ≡ length calls
  unfolding fetch_count verify_command_key load_command_key_hash
  fetches_while_failing [] s h = refl
  fetches_while_failing ((now, answer, token) ∷ calls) s (a, b, c, d) =
      elim (Result-cases answer.row) [
        | inl (x, e) ↦ absurd (subst IsErr e c)
        | inr (x, e) ↦
            rw (a, le→leb _ _ b, e, load_command_key_hash)
              (ground (arith, fetches_while_failing calls s d))
      ]
