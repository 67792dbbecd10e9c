-- ===== src/Prelude/Sort.antt =====
-- `Array.prototype.sort` by a comparison, and lists related in pairs.
use Prim.Native.Nat.{ℕ, zero, suc}
use mathlib.Core.Path.{◌≡◌, refl}
use mathlib.Core.Logic.{◌⊎◌, inl, inr}
use mathlib.Core.Bool.{Bool, true, false}
use mathlib.Core.List.{List, [], ◌∷◌}
use native.Mathlib.Omega.{arith}
use obs_instance_manager.Prelude.Tests.{if◌then◌else◌, Bool-cases}
use obs_instance_manager.Prelude.Lists.{All, take, length}

module _ {A : Type 0} where
  abbrev pub Member : A → List A → Type 0
  Member a [] = ⊥
  Member a (x ∷ xs) = (a ≡ x) ⊎ Member a xs

  -- Each element is related to every later one.
  abbrev pub Pairwise : (A → A → Type 0) → List A → Type 0
  Pairwise R [] = Unit
  Pairwise R (x ∷ xs) = All (R x) xs × Pairwise R xs

  pub All-take : (P : A → Type 0) (n : ℕ) (xs : List A) → All P xs → All P (take n xs)
  All-take P zero xs h = tt
  All-take P (suc n) [] h = tt
  All-take P (suc n) (x ∷ xs) h = (h.0, All-take P n xs h.1)

  pub All-member : (P : A → Type 0) (a : A) (xs : List A) → All P xs → Member a xs → P a
  All-member P a [] h m = absurd m
  All-member P a (x ∷ xs) h (inl e) = rw e h.0
  All-member P a (x ∷ xs) h (inr m) = All-member P a xs h.1 m

  pub All-mono : (P Q : A → Type 0) (xs : List A) → ((a : A) → P a → Q a) → All P xs → All Q xs
  All-mono P Q [] f h = tt
  All-mono P Q (x ∷ xs) f h = (f x h.0, All-mono P Q xs f h.1)

  pub Pairwise-take :
      (R : A → A → Type 0) (n : ℕ) (xs : List A) → Pairwise R xs → Pairwise R (take n xs)
  Pairwise-take R zero xs h = tt
  Pairwise-take R (suc n) [] h = tt
  Pairwise-take R (suc n) (x ∷ xs) h = (All-take (R x) n xs h.0, Pairwise-take R n xs h.1)

  -- An element stands in the first `n`, or all of these are related to it.
  pub Pairwise-split :
      (R : A → A → Type 0) (n : ℕ) (xs : List A) (b : A)
      → Pairwise R xs
      → Member b xs
      → Member b (take n xs) ⊎ All (λ a. R a b) (take n xs)
  Pairwise-split R zero xs b h m = inr tt
  Pairwise-split R (suc n) [] b h m = absurd m
  Pairwise-split R (suc n) (x ∷ xs) b h (inl e) = inl (inl e)
  Pairwise-split R (suc n) (x ∷ xs) b h (inr m) = elim (Pairwise-split R n xs b h.1 m) [
    | inl early ↦ inl (inr early)
    | inr late ↦ inr (All-member (R x) b xs h.0 m, late)
  ]

  module _ (le : A → A → Bool) where
    unfoldable pub insert : A → List A → List A
    insert x [] = x ∷ []
    insert x (y ∷ ys) = if le x y then x ∷ y ∷ ys else y ∷ insert x ys

    unfoldable pub sort : List A → List A
    sort [] = []
    sort (x ∷ xs) = insert x (sort xs)

    pub All-insert : (P : A → Type 0) (x : A) (xs : List A) → P x → All P xs → All P (insert x xs)
    unfolding insert
    All-insert P x [] p h = (p, tt)
    All-insert P x (y ∷ ys) p h = elim (Bool-cases (le x y)) [
      | inl first ↦ rw first (p, h)
      | inr later ↦ rw later (h.0, All-insert P x ys p h.1)
    ]

    pub All-sort : (P : A → Type 0) (xs : List A) → All P xs → All P (sort xs)
    unfolding sort
    All-sort P [] h = tt
    All-sort P (x ∷ xs) h = All-insert P x (sort xs) h.0 (All-sort P xs h.1)

    Member-insert : (a x : A) (xs : List A) → (a ≡ x) ⊎ Member a xs → Member a (insert x xs)
    unfolding insert
    Member-insert a x [] m = m
    Member-insert a x (y ∷ ys) m = elim (Bool-cases (le x y)) [
      | inl first ↦ rw first m
      | inr later ↦ rw later (elim m [
        | inl e ↦ inr (Member-insert a x ys (inl e))
        | inr (inl e) ↦ inl e
        | inr (inr t) ↦ inr (Member-insert a x ys (inr t))
      ])
    ]

    pub Member-sort : (a : A) (xs : List A) → Member a xs → Member a (sort xs)
    unfolding sort
    Member-sort a [] m = m
    Member-sort a (x ∷ xs) (inl e) = Member-insert a x (sort xs) (inl e)
    Member-sort a (x ∷ xs) (inr m) = Member-insert a x (sort xs) (inr (Member-sort a xs m))

    length-insert : (x : A) (xs : List A) → length (insert x xs) ≡ suc (length xs)
    unfolding insert
    length-insert x [] = refl
    length-insert x (y ∷ ys) = ground (arith, length-insert x ys)

    pub length-sort : (xs : List A) → length (sort xs) ≡ length xs
    unfolding sort
    length-sort [] = refl
    length-sort (x ∷ xs) = ground (arith, length-insert x (sort xs), length-sort xs)

    -- A symmetric relation of pairs does not depend on the order.
    module _ (R : A → A → Type 0) (R_symm : (a b : A) → R a b → R b a) where
      Pairwise-insert :
          (x : A) (xs : List A) → All (R x) xs → Pairwise R xs → Pairwise R (insert x xs)
      unfolding insert
      Pairwise-insert x [] h p = (tt, tt)
      Pairwise-insert x (y ∷ ys) h p = elim (Bool-cases (le x y)) [
        | inl first ↦ rw first (h, p)
        | inr later ↦
            rw later (All-insert (R y) x ys (R_symm x y h.0) p.0, Pairwise-insert x ys h.1 p.1)
      ]

      pub Pairwise-sort : (xs : List A) → Pairwise R xs → Pairwise R (sort xs)
      unfolding sort
      Pairwise-sort [] p = tt
      Pairwise-sort (x ∷ xs) p =
          Pairwise-insert x (sort xs) (All-sort (R x) xs p.0) (Pairwise-sort xs p.1)

    abbrev pub Sorted : List A → Type 0
    Sorted xs = Pairwise (λ a b. le a b ≡ true) xs

    module _ (le_total : (a b : A) → le a b ≡ false → le b a ≡ true)
        (le_trans : (a b c : A) → le a b ≡ true → le b c ≡ true → le a c ≡ true) where
      Sorted-insert : (x : A) (xs : List A) → Sorted xs → Sorted (insert x xs)
      unfolding insert
      Sorted-insert x [] s = (tt, tt)
      Sorted-insert x (y ∷ ys) s = elim (Bool-cases (le x y)) [
        | inl first ↦ rw first (
          (
            first,
            All-mono (λ b. le y b ≡ true) (λ b. le x b ≡ true) ys (λ b h. le_trans x y b first h)
                s.0,
          ),
          s,
        )
        | inr later ↦
            rw later (
              All-insert (λ b. le y b ≡ true) x ys (le_total x y later) s.0,
              Sorted-insert x ys s.1,
            )
      ]

      pub sort-Sorted : (xs : List A) → Sorted (sort xs)
      unfolding sort
      sort-Sorted [] = tt
      sort-Sorted (x ∷ xs) = Sorted-insert x (sort xs) (sort-Sorted xs)
