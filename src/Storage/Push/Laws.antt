-- ===== src/Storage/Push/Laws.antt =====
-- The retries of the final push end.
use obs_instance_manager.Prelude.{
  ℕ, suc, ◌≡◌, ◌⊎◌, inl, inr, Bool, true, false, Option, some, [], ◌∷◌, arith,
}
use obs_instance_manager.Effects.{Op}
use obs_instance_manager.Effects.Rules.{Result-cases}
use obs_instance_manager.Storage.Push.{
  pushed, slept, removed_local, Persisting, persist_from, persist_and_remove_local_config,
}

module _ {E : Type 0} (push remove : Op E (Unit {0})) (fuel : ℕ) (env : E) where
  -- One of the ways in which the loop ends, and what it has done by then, newest first.
  abbrev pub Ends : Option Bool × Persisting E → Type 0
  Ends o =
      ((o.0 ≡ some true) × (o.1.steps ≡ removed_local ∷ pushed true ∷ []))
      ⊎ ((o.0 ≡ some true)
          × (o.1.steps ≡ removed_local ∷ pushed true ∷ slept 1000 ∷ pushed false ∷ []))
      ⊎ ((o.0 ≡ some true)
          × (o.1.steps
              ≡ removed_local
                ∷ pushed true
                ∷ slept 2000
                ∷ pushed false
                ∷ slept 1000
                ∷ pushed false
                ∷ []))
      ⊎ ((o.0 ≡ some false)
          × (o.1.steps ≡ pushed false ∷ slept 2000 ∷ pushed false ∷ slept 1000 ∷ pushed false ∷ []))

  -- The state outside after a number of pushes.
  abbrev after_push : E → E
  after_push e = (push e).1

  -- The loop ends within three rounds, whatever the push does: with any fuel of three or more it
  -- answers true, after a push that succeeded at the first, second or third attempt and was followed
  -- by the removal of the directory; or false, after three pushes that failed, and the directory was
  -- not removed. Between two attempts it sleeps for one second, then two.
  pub persist-Ends : Ends (persist_and_remove_local_config push remove (suc (suc (suc fuel))) env)
  unfolding persist_from
  persist-Ends = elim (Result-cases (push env).0) [
    | inl (u, e) ↦ inl (ground (arith, e))
    | inr (x, e) ↦ elim (Result-cases (push (after_push env)).0) [
      | inl (u, f) ↦ inr (inl (ground (arith, e, f)))
      | inr (y, f) ↦ elim (Result-cases (push (after_push (after_push env))).0) [
        | inl (u, g) ↦ inr (inr (inl (ground (arith, e, f, g))))
        | inr (z, g) ↦ inr (inr (inr (ground (arith, e, f, g))))
      ]
    ]
  ]
