-- ===== src/Auth/NodeToken/Reads.antt =====
-- How often the checks of tokens read the node row live.
use obs_instance_manager.Prelude.{
  ℕ, ◌+◌, ◌*◌, ◌≤◌, String, ◌≡◌, refl, ◌⊎◌, inl, inr, Bool, true, false, List, [], ◌∷◌, arith,
  if◌then◌else◌,
}
use obs_instance_manager.Auth.NodeToken.{
  Checked, valid, invalid, NodeRow, Jose, unknown_key_refresh_cooldown_ms, verify_with, refreshes,
  verify_node_token,
}
use obs_instance_manager.Auth.NodeToken.Laws.{Checked-cases}

module _ (jose : Jose) where
  -- Whether a check of a token reads the node row live.
  abbrev pub reads : ℕ → Checked NodeRow → String → ℕ → Bool
  reads now (invalid e) token last = false
  reads now (valid node) token last = elim (verify_with jose token node) [
    | valid claims ↦ false
    | invalid e ↦ refreshes jose now last node e
  ]

  -- How many of a sequence of checks do.
  unfoldable pub read_count : List (ℕ × Checked NodeRow × Checked NodeRow × String) → ℕ → ℕ
  read_count [] last = 0
  read_count ((now, cached, refreshed, token) ∷ calls) last =
      let rest = read_count calls (verify_node_token jose now cached refreshed token last).1 in
      if reads now cached token last then rest + 1 else rest

  abbrev pub Follow : ℕ → ℕ → List (ℕ × Checked NodeRow × Checked NodeRow × String) → Type 0
  Follow from to [] = from ≤ to
  Follow from to ((now, cached, refreshed, token) ∷ calls) = (from ≤ now) × Follow now to calls

  verify_node_token-last :
      (now last : ℕ) (cached refreshed : Checked NodeRow) (token : String)
      → ((reads now cached token last ≡ true)
          × (last + unknown_key_refresh_cooldown_ms ≤ now)
          × ((verify_node_token jose now cached refreshed token last).1 ≡ now))
        ⊎ ((reads now cached token last ≡ false)
            × ((verify_node_token jose now cached refreshed token last).1 ≡ last))
  unfolding verify_node_token
  verify_node_token-last now last (invalid e) refreshed token = inr (refl, refl)
  verify_node_token-last now last (valid node) refreshed token =
      elim (Checked-cases (verify_with jose token node)) [
        | inl (c, q) ↦ ground (arith, q)
        | inr (e, q) ↦ ground (arith, q)
      ]

  -- Whatever tokens come and whatever rest-api answers, failures included, the live reads that
  -- unknown keys force are a cooldown apart: counted from the last one, as many cooldowns have
  -- passed as rows were read.
  read_count_bounds :
      (from to : ℕ) (calls : List (ℕ × Checked NodeRow × Checked NodeRow × String)) (last : ℕ)
      → Follow from to calls
      → last ≤ from
      → last + unknown_key_refresh_cooldown_ms * read_count calls last ≤ to
  unfolding read_count
  read_count_bounds from to [] last h l = omega (arith, h)
  read_count_bounds from to ((now, cached, refreshed, token) ∷ calls) last (a, h) l =
      elim (verify_node_token-last now last cached refreshed token) [
        | inl (r, q, e) ↦
            rw (r, e) (omega (arith, q, read_count_bounds now to calls now h (omega arith)))
        | inr (r, e) ↦ rw (r, e) (read_count_bounds now to calls last h (omega arith))
      ]
