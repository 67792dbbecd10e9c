-- ===== src/Effects/Rules.antt =====
-- Case rules for the monad: a property of a run is proved from the two ways in which its first
-- step ends, with the step itself shut.
use obs_instance_manager.Prelude.{◌≡◌, refl, ◌⊎◌, inl, inr}
use obs_instance_manager.Effects.{
  Error, Result, ok, err, World, M, and_then, or_catch, try_catch, ◌>>=◌,
}

pub Result-cases :
    {A : Type 0} (r : Result A) → ((a : A) × (r ≡ ok a)) ⊎ ((e : Error) × (r ≡ err e))
Result-cases (ok a) = inl (a, refl)
Result-cases (err e) = inr (e, refl)

module _ {E A B : Type 0} (P : Result B × World E → Type 0) (m : M E A) (f : A → M E B)
    (w : World E) where
  pub bind_cases :
      ((a : A) (w' : World E) → m w ≡ (ok a, w') → P (f a w'))
      → ((e : Error) (w' : World E) → m w ≡ (err e, w') → P (err e, w'))
      → P ((m >>= f) w)
  bind_cases good bad = go (m w).0 (m w).1 refl
    where
      go : (r : Result A) (w' : World E) → m w ≡ (r, w') → P (and_then r f w')
      go (ok a) w' h = good a w' h
      go (err e) w' h = bad e w' h

module _ {E A : Type 0} (P : Result A × World E → Type 0) (m : M E A) (h : Error → M E A)
    (w : World E) where
  pub catch_cases :
      ((a : A) (w' : World E) → m w ≡ (ok a, w') → P (ok a, w'))
      → ((e : Error) (w' : World E) → m w ≡ (err e, w') → P (h e w'))
      → P (try_catch m h w)
  catch_cases good bad = go (m w).0 (m w).1 refl
    where
      go : (r : Result A) (w' : World E) → m w ≡ (r, w') → P (or_catch r h w')
      go (ok a) w' e = good a w' e
      go (err x) w' e = bad x w' e
