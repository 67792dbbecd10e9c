-- ===== src/Docker/Cpuset/Picking.antt =====
-- src/utils/cpuset.ts: which cores are picked.
use obs_instance_manager.Prelude.{
  ℕ, suc, ◌+◌, ◌≤◌, ◌<◌, ◌≡◌, ◌≢◌, ◌⊎◌, inl, inr, refl, ap, sym, ◌∙◌, subst, true, false, List, [],
  ◌∷◌, map, min, take, length, All, arith, Bool-cases, ltb, leb, eqb, eqb_iff, length-take,
  length-map, tests,
}
use obs_instance_manager.Prelude.Sort.{
  sort, sort-Sorted, All-sort, Member, Member-sort, All-member, All-mono, All-take, Pairwise,
  Pairwise-sort, Pairwise-take, Pairwise-split, length-sort,
}
use obs_instance_manager.Docker.Cpuset.{Load, loads_from, lighter, pick_least_used_cores}

-- `c` bears less than `d`, or as much and stands before it.
abbrev pub Less : (ℕ → ℕ) → ℕ → ℕ → Type 0
Less load c d = (load c < load d) ⊎ ((load c ≡ load d) × (c < d))

-- The cores are as many as wanted or as there are, in ascending order, and no core that is left out
-- bears less than one of them.
pub record Picks (load : ℕ → ℕ) (total want : ℕ) (cores : List ℕ) : Type 0 where
  pub count : length cores ≡ min want total
  pub ascending : Pairwise ◌<◌ cores
  pub within : All (λ c. c < total) cores
  pub least : (d : ℕ) → d < total → (Member d cores → ⊥) → All (λ c. Less load c d) cores

module _ (load : ℕ → ℕ) where
  -- The list says how much each core from `k` on bears.
  abbrev pub Bears : ℕ → List ℕ → Type 0
  Bears k [] = Unit
  Bears k (n ∷ usage) = (load k ≡ n) × Bears (k + 1) usage

  abbrev IsLoad : Load → Type 0
  IsLoad l = load l.core ≡ l.count

  loads-IsLoad : (k : ℕ) (usage : List ℕ) → Bears k usage → All IsLoad (loads_from k usage)
  unfolding loads_from
  loads-IsLoad k [] b = tt
  loads-IsLoad k (n ∷ usage) b = (b.0, loads-IsLoad (k + 1) usage b.1)

  loads-Member :
      (k d : ℕ) (usage : List ℕ)
      → Bears k usage
      → k ≤ d
      → d < k + length usage
      → Member (record { count = load d; core = d }) (loads_from k usage)
  unfolding loads_from
  loads-Member k d [] b le lt = absurd (omega arith)
  loads-Member k d (n ∷ usage) b le lt = elim (Bool-cases (eqb k d)) [
    | inl here ↦ inl (ground (arith, eqb_iff k d))
    | inr later ↦ inr (loads-Member (k + 1) d usage b.1 (ground arith) (omega arith))
  ]

loads-bounds :
    (k : ℕ) (usage : List ℕ)
    → All (λ (l : Load). (k ≤ l.core) × (l.core < k + length usage)) (loads_from k usage)
unfolding loads_from
loads-bounds k [] = tt
loads-bounds k (n ∷ usage) = (
  (omega arith, omega arith),
  All-mono (λ (l : Load). (k + 1 ≤ l.core) × (l.core < k + 1 + length usage)) _
      (loads_from (k + 1) usage) (λ l h. (omega arith, omega arith)) (loads-bounds (k + 1) usage),
)

abbrev Apart : Load → Load → Type 0
Apart a b = a.core ≢ b.core

loads-Apart : (k : ℕ) (usage : List ℕ) → Pairwise Apart (loads_from k usage)
unfolding loads_from
loads-Apart k [] = tt
loads-Apart k (n ∷ usage) = (
  All-mono (λ (l : Load). (k + 1 ≤ l.core) × (l.core < k + 1 + length usage)) _
      (loads_from (k + 1) usage) (λ l h e. omega (arith, e, h.0)) (loads-bounds (k + 1) usage),
  loads-Apart (k + 1) usage,
)

length-loads : (k : ℕ) (usage : List ℕ) → length (loads_from k usage) ≡ length usage
unfolding loads_from
length-loads k [] = refl
length-loads k (n ∷ usage) = ap suc (length-loads (k + 1) usage)

lighter_total : (a b : Load) → lighter a b ≡ false → lighter b a ≡ true
lighter_total a b h = ground arith

lighter_trans : (a b c : Load) → lighter a b ≡ true → lighter b c ≡ true → lighter a c ≡ true
lighter_trans a b c h k = ground arith

leb_total : (a b : ℕ) → leb a b ≡ false → leb b a ≡ true
leb_total a b h = ground arith

leb_trans : (a b c : ℕ) → leb a b ≡ true → leb b c ≡ true → leb a c ≡ true
leb_trans a b c h k = ground arith

All-map :
    {A B : Type 0} (P : B → Type 0) (f : A → B) (xs : List A)
    → All (λ a. P (f a)) xs
    → All P (map f xs)
All-map P f [] h = tt
All-map P f (x ∷ xs) h = (h.0, All-map P f xs h.1)

Pairwise-map :
    {A B : Type 0} (R : B → B → Type 0) (f : A → B) (xs : List A)
    → Pairwise (λ a b. R (f a) (f b)) xs
    → Pairwise R (map f xs)
Pairwise-map R f [] h = tt
Pairwise-map R f (x ∷ xs) h = (All-map (R (f x)) f xs h.0, Pairwise-map R f xs h.1)

Member-map :
    {A B : Type 0} (f : A → B) (a : A) (xs : List A) → Member a xs → Member (f a) (map f xs)
Member-map f a [] m = absurd m
Member-map f a (x ∷ xs) (inl e) = inl (ap f e)
Member-map f a (x ∷ xs) (inr m) = inr (Member-map f a xs m)

All-zip :
    {A : Type 0} (P Q R : A → Type 0) (xs : List A)
    → ((a : A) → P a → Q a → R a)
    → All P xs
    → All Q xs
    → All R xs
All-zip P Q R [] f h k = tt
All-zip P Q R (x ∷ xs) f h k = (f x h.0 k.0, All-zip P Q R xs f h.1 k.1)

strictly :
    (xs : List ℕ)
    → Pairwise (λ a b. leb a b ≡ true) xs
    → Pairwise (λ a b. a ≢ b) xs
    → Pairwise ◌<◌ xs
strictly [] s d = tt
strictly (x ∷ xs) s d = (
  All-zip (λ b. leb x b ≡ true) (λ b. x ≢ b) (λ b. x < b) xs (λ b h k. ground arith) s.0 d.0,
  strictly xs s.1 d.1,
)

All-of_members :
    {A : Type 0} (P : A → Type 0) (xs : List A) → ((a : A) → Member a xs → P a) → All P xs
All-of_members P [] f = tt
All-of_members P (x ∷ xs) f = (f x (inl refl), All-of_members P xs (λ a m. f a (inr m)))

abbrev core_of : Load → ℕ
core_of l = l.core

module _ (load : ℕ → ℕ) (want : ℕ) (usage : List ℕ) (b : Bears load 0 usage) where
  abbrev ranked : List Load
  ranked = sort lighter (loads_from 0 usage)

  abbrev chosen : List Load
  chosen = take want ranked

  chosen-IsLoad : All (IsLoad load) chosen
  chosen-IsLoad =
      All-take (IsLoad load) want ranked
        (All-sort lighter (IsLoad load) (loads_from 0 usage) (loads-IsLoad load 0 usage b))

  Less-of_lighter :
      (l : Load) (d : ℕ)
      → load l.core ≡ l.count
      → lighter l (record { count = load d; core = d }) ≡ true
      → l.core ≢ d
      → Less load l.core d
  Less-of_lighter l d e h ne = elim (Bool-cases (ltb l.count (load d))) [
    | inl less ↦ inl (omega (tests, e))
    | inr more ↦ inr (ground arith, ground arith)
  ]

  chosen-least :
      (d : ℕ)
      → d < length usage
      → (Member d (sort leb (map core_of chosen)) → ⊥)
      → All (λ l. Less load l.core d) chosen
  chosen-least d lt out =
      elim (Pairwise-split (λ x y. lighter x y ≡ true) want ranked
        (record { count = load d; core = d })
        (sort-Sorted lighter lighter_total lighter_trans (loads_from 0 usage))
        (Member-sort lighter _ (loads_from 0 usage)
          (loads-Member load 0 d usage b (omega arith) (omega arith)))) [
            | inl in_chosen ↦ absurd (
                out
                  (Member-sort leb d (map core_of chosen) (Member-map core_of _ chosen in_chosen)))
            | inr below ↦ All-of_members _ chosen λ l m.
                Less-of_lighter l d (All-member (IsLoad load) l chosen chosen-IsLoad m)
                  (All-member _ l chosen below m)
                  (λ e. out (
                    subst (λ c. Member c (sort leb (map core_of chosen))) e
                      (Member-sort leb l.core (map core_of chosen)
                        (Member-map core_of l chosen m))))
          ]

  -- The picked cores are those that bear the least.
  pub pick-Picks : Picks load (length usage) want (pick_least_used_cores usage want)
  unfolding pick_least_used_cores
  pick-Picks = record {
    count =
        length-sort leb (map core_of chosen)
        ∙ length-map chosen core_of
        ∙ length-take want ranked
        ∙ ap (min want) (length-sort lighter (loads_from 0 usage) ∙ length-loads 0 usage);
    ascending = strictly (sort leb (map core_of chosen)) (sort-Sorted leb leb_total leb_trans _) (
        Pairwise-sort leb (λ c d. c ≢ d) (λ c d h e. h (sym e)) (map core_of chosen)
          (Pairwise-map (λ c d. c ≢ d) core_of chosen
            (Pairwise-take Apart want ranked (
              Pairwise-sort lighter Apart (λ x y h e. h (sym e)) (loads_from 0 usage)
                (loads-Apart 0 usage)))));
    within =
        All-sort leb (λ c. c < length usage) (map core_of chosen)
          (All-map (λ c. c < length usage) core_of chosen
            (All-take _ want ranked (
              All-sort lighter _ (loads_from 0 usage) (
                All-mono (λ (l : Load). (0 ≤ l.core) × (l.core < 0 + length usage))
                  (λ l. l.core < length usage) (loads_from 0 usage) (λ l h. omega (arith, h.1))
                  (loads-bounds 0 usage)))));
    least = λ d lt out.
        All-sort leb (λ c. Less load c d) (map core_of chosen)
          (All-map (λ c. Less load c d) core_of chosen (chosen-least d lt out));
  }
