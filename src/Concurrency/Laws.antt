-- ===== src/Concurrency/Laws.antt =====
-- src/utils/concurrency.ts: every history of `mapLimit`.
pub mod Failing
use obs_instance_manager.Prelude.{
  ℕ, zero, suc, ◌+◌, ◌≤◌, ◌<◌, ◌≡◌, refl, true, false, Option, none, some, List, [], ◌∷◌, ◌≢◌,
  length, get_elem?, arith, max, min, ap, Bool-cases, inl, inr, ◌⊎◌, ◌-◌, ◌∙◌, ◌↔◌, ltb→lt, lt→ltb,
  eqb, eqb_iff, ltb, put, tests, subst, String,
}
use obs_instance_manager.Concurrency.{
  Settled, resolved, rejected, Pool, Outcome, pending, fulfilled, failed, first_failure, mem, land,
  take_next, settle, on_settled, spawn, workers, new_pool, begin, run, map_limit, outcome,
}

abbrev pub Distinct : List ℕ → Type 0
Distinct [] = Unit
Distinct (i ∷ is) = (mem i is ≡ false) × Distinct is

pub length-land : (i : ℕ) (is : List ℕ) → mem i is ≡ true → length (land i is) + 1 ≡ length is
unfolding mem land
length-land i [] h = ground arith
length-land i (j ∷ is) h = ground (arith, length-land i is)

mem-land_ne : (i k : ℕ) (is : List ℕ) → mem k is ≡ false → mem k (land i is) ≡ false
unfolding mem land
mem-land_ne i k [] h = ground arith
mem-land_ne i k (j ∷ is) h = ground (arith, mem-land_ne i k is)

mem_of_land : (i k : ℕ) (is : List ℕ) → mem k (land i is) ≡ false → i ≢ k → mem k is ≡ false
unfolding mem land
mem_of_land i k [] h ne = ground arith
mem_of_land i k (j ∷ is) h ne = ground (arith, mem_of_land i k is)

Distinct-land : (i : ℕ) (is : List ℕ) → Distinct is → Distinct (land i is)
unfolding mem land
Distinct-land i [] d = tt
Distinct-land i (j ∷ is) d = ground (arith, Distinct-land i is, mem-land_ne i j is)

mem-land_self : (i : ℕ) (is : List ℕ) → Distinct is → mem i (land i is) ≡ false
unfolding mem land
mem-land_self i [] d = refl
mem-land_self i (j ∷ is) d = ground (arith, mem-land_self i is)

get_elem?_of_lt :
    {A : Type 0} (xs : List A) (i : ℕ) → i < length xs → (a : A) × (get_elem? xs i ≡ some a)
get_elem?_of_lt [] i h = elim h [ ]
get_elem?_of_lt (x ∷ xs) zero h = (x, refl)
get_elem?_of_lt (x ∷ xs) (suc i) h = get_elem?_of_lt xs i (omega arith)

get_elem?-lt : {A : Type 0} (xs : List A) (i : ℕ) (a : A) → get_elem? xs i ≡ some a → i < length xs
get_elem?-lt [] i a h = cc
get_elem?-lt (x ∷ xs) zero a h = omega arith
get_elem?-lt (x ∷ xs) (suc i) a h = omega (arith, get_elem?-lt xs i a h)

List-cases : {A : Type 0} (xs : List A) → (xs ≡ []) ⊎ ((x : A) × (ys : List A) × (xs ≡ x ∷ ys))
List-cases [] = inl refl
List-cases (x ∷ ys) = inr (x, ys, refl)

pub Settled-cases :
    {R : Type 0} (o : Settled R) → ((r : R) × (o ≡ resolved r)) ⊎ ((e : String) × (o ≡ rejected e))
Settled-cases (resolved r) = inl (r, refl)
Settled-cases (rejected e) = inr (e, refl)

module _ {A R : Type 0} (items : List A) (fn : A → Settled R) where
  -- What holds of a pool with `w` workers.
  pub record Inv (w : ℕ) (s : Pool R) : Type 0 where
    pub next_bounds : s.next ≤ length items
    width : length s.flights ≤ w
    distinct : Distinct s.flights
    unbegun : (k : ℕ) → s.next ≤ k → mem k s.flights ≡ false
    answered :
        (k : ℕ) (a : A) (r : R)
        → k < s.next
        → mem k s.flights ≡ false
        → get_elem? items k ≡ some a
        → fn a ≡ resolved r
        → s.results k ≡ some r
    busy : s.failure ≡ none → s.next < length items → length s.flights ≡ w

  new_pool-Inv : Inv 0 (new_pool items fn)
  unfolding mem
  new_pool-Inv = record {
    next_bounds = omega arith;
    width = omega arith;
    distinct = tt;
    unbegun = λ k h. refl;
    answered = λ k a r lt. elim lt [ ];
    busy = λ f lt. refl;
  }

  take_next-Inv : (w : ℕ) (s : Pool R) → Inv w s → Inv (w + 1) (take_next items fn s)
  unfolding take_next mem
  take_next-Inv w s v = elim (Bool-cases (ltb s.next (length items))) [
    | inl more ↦ rw more record {
      next_bounds = omega tests;
      width = omega (arith, v.width);
      distinct = (v.unbegun s.next (omega arith), v.distinct);
      unbegun = λ k h. ground (arith, v.unbegun k);
      answered = λ k a r lt out. ground (arith, v.answered k a r);
      busy = λ f lt. omega (arith, v.busy f (omega tests));
    }
    | inr all_taken ↦ rw all_taken record {
      next_bounds = v.next_bounds;
      width = omega (arith, v.width);
      distinct = v.distinct;
      unbegun = v.unbegun;
      answered = v.answered;
      busy = λ f lt. ground arith;
    }
  ]

  spawn-Inv : (m w : ℕ) (s : Pool R) → Inv w s → Inv (w + m) (spawn items fn m s)
  unfolding spawn
  spawn-Inv zero w s v = subst (λ n. Inv n s) (omega arith) v
  spawn-Inv (suc m) w s v =
      subst (λ n. Inv n (spawn items fn (suc m) s)) (omega arith)
        (spawn-Inv m (w + 1) (take_next items fn s) (take_next-Inv w s v))

  pub begin-Inv : (limit : ℕ) → Inv (workers items fn limit) (begin items fn limit)
  unfolding begin
  begin-Inv limit =
      subst (λ n. Inv n (begin items fn limit)) (omega arith)
        (spawn-Inv (workers items fn limit) 0 (new_pool items fn) new_pool-Inv)

  stored-Inv :
      (w i : ℕ) (a : A) (r : R) (s : Pool R)
      → mem i s.flights ≡ true
      → get_elem? items i ≡ some a
      → fn a ≡ resolved r
      → Inv (w + 1) s
      → Inv w (record s { flights = land i s.flights; results = put s.results i (some r) })
  stored-Inv w i a r s m at e v = record {
    next_bounds = v.next_bounds;
    width = omega (arith, v.width, length-land i s.flights m);
    distinct = Distinct-land i s.flights v.distinct;
    unbegun = λ k h. mem-land_ne i k s.flights (v.unbegun k h);
    answered = λ k b q lt out here f. elim (Bool-cases (eqb i k)) [
      | inl same ↦ rw same (ground (arith, eqb_iff i k))
      | inr other ↦ rw other (
          v.answered k b q lt (mem_of_land i k s.flights out (λ p. ground (arith, eqb_iff i k)))
            here f)
    ];
    busy = λ f lt. omega (arith, v.busy f lt, length-land i s.flights m);
  }

  refused-Inv :
      (w i : ℕ) (a : A) (e : String) (s : Pool R)
      → mem i s.flights ≡ true
      → get_elem? items i ≡ some a
      → fn a ≡ rejected e
      → Inv w s
      → Inv w (record s { flights = land i s.flights; failure = first_failure s.failure e })
  refused-Inv w i a e s m at h v = record {
    next_bounds = v.next_bounds;
    width = omega (arith, v.width, length-land i s.flights m);
    distinct = Distinct-land i s.flights v.distinct;
    unbegun = λ k l. mem-land_ne i k s.flights (v.unbegun k l);
    answered = λ k b q lt out here f. elim (Bool-cases (eqb i k)) [
      | inl same ↦ ground (arith, eqb_iff i k)
      | inr other ↦
          v.answered k b q lt (mem_of_land i k s.flights out (λ p. ground (arith, eqb_iff i k)))
            here f
    ];
    busy = λ f. ground arith;
  }

  settle-Inv :
      (w i : ℕ) (a : A) (s : Pool R)
      → mem i s.flights ≡ true
      → get_elem? items i ≡ some a
      → Inv (w + 1) s
      → Inv (w + 1) (settle items fn i (some (fn a)) s)
  settle-Inv w i a s m at v = elim (Settled-cases (fn a)) [
    | inl (r, e) ↦ rw e (take_next-Inv w _ (stored-Inv w i a r s m at e v))
    | inr (x, e) ↦ rw e (refused-Inv (w + 1) i a x s m at e v)
  ]

  pub begun_item :
      (w i : ℕ) (s : Pool R)
      → Inv w s
      → mem i s.flights ≡ true
      → (a : A) × (get_elem? items i ≡ some a)
  begun_item w i s v m = get_elem?_of_lt items i (elim (Bool-cases (ltb i s.next)) [
    | inl lt ↦ omega (tests, v.next_bounds)
    | inr ge ↦ absurd (cc (v.unbegun i (ground arith)))
  ])

  pub on_settled-Inv : (w i : ℕ) (s : Pool R) → Inv w s → Inv w (on_settled items fn i s)
  unfolding on_settled
  on_settled-Inv zero i s v = elim (Bool-cases (mem i s.flights)) [
    | inl m ↦ absurd (omega (arith, v.width, length-land i s.flights m))
    | inr out ↦ rw out v
  ]
  on_settled-Inv (suc w) i s v = elim (Bool-cases (mem i s.flights)) [
    | inl m ↦
        let (a, at) = begun_item (suc w) i s v m in
        rw (m, at)
          (subst (λ n. Inv n (settle items fn i (some (fn a)) s)) (omega arith)
            (settle-Inv w i a s m at (subst (λ n. Inv n s) (omega arith) v)))
    | inr out ↦ rw out v
  ]

  pub run-Inv : (w : ℕ) (s : Pool R) (history : List ℕ) → Inv w s → Inv w (run items fn s history)
  unfolding run
  run-Inv w s [] v = v
  run-Inv w s (i ∷ history) v = run-Inv w (on_settled items fn i s) history (on_settled-Inv w i s v)

  -- Whatever the order in which calls settle and whichever of them fail, at most `max(1, limit)`
  -- calls are in flight, and no item has two.
  pub flights_bounds :
      (limit : ℕ) (history : List ℕ)
      → (length (map_limit items fn limit history).flights ≤ max 1 limit)
        × Distinct (map_limit items fn limit history).flights
  flights_bounds limit history =
      let v = run-Inv (workers items fn limit) (begin items fn limit) history (begin-Inv limit) in
      (omega (arith, v.width), v.distinct)

  -- What is left to settle.
  abbrev left : Pool R → ℕ
  left s = length s.flights + (length items - s.next)

  -- Each event settles a call that is in flight.
  unfoldable pub Settles : Pool R → List ℕ → Type 0
  Settles s [] = Unit
  Settles s (i ∷ history) = (mem i s.flights ≡ true) × Settles (on_settled items fn i s) history

  take_next-left : (s : Pool R) → left (take_next items fn s) ≡ left s
  unfolding take_next
  take_next-left s = ground arith

  pub spawn-left : (m : ℕ) (s : Pool R) → left (spawn items fn m s) ≡ left s
  unfolding spawn
  spawn-left zero s = refl
  spawn-left (suc m) s = spawn-left m (take_next items fn s) ∙ take_next-left s

  settle-left :
      (i : ℕ) (a : A) (s : Pool R)
      → mem i s.flights ≡ true
      → left (settle items fn i (some (fn a)) s) + 1 ≡ left s
  settle-left i a s m = elim (Settled-cases (fn a)) [
    | inl (r, e) ↦ rw (e, take_next-left) (omega (arith, length-land i s.flights m))
    | inr (x, e) ↦ rw e (omega (arith, length-land i s.flights m))
  ]

  on_settled-left :
      (w i : ℕ) (s : Pool R)
      → Inv w s
      → mem i s.flights ≡ true
      → left (on_settled items fn i s) + 1 ≡ left s
  unfolding on_settled
  on_settled-left w i s v m = let (a, at) = begun_item w i s v m in rw (m, at) (settle-left i a s m)

  pub run-left :
      (w : ℕ) (s : Pool R) (history : List ℕ)
      → Inv w s
      → Settles s history
      → left (run items fn s history) + length history ≡ left s
  unfolding run Settles
  run-left w s [] v h = omega arith
  run-left w s (i ∷ history) v h = omega (
    arith,
    run-left w (on_settled items fn i s) history (on_settled-Inv w i s v) h.1,
    on_settled-left w i s v h.0,
  )

  failed_iff : (s : Pool R) (e : String) → (outcome s ≡ failed e) ↔ (s.failure ≡ some e)
  unfolding outcome
  failed_iff s e = ground arith

  module _ (f : A → R) (good : (a : A) → fn a ≡ resolved (f a)) where
    settle-failure :
        (i : ℕ) (o : Option A) (s : Pool R)
        → s.failure ≡ none
        → (settle items fn i (elim o [ none ↦ none | some a ↦ some (fn a) ]) s).failure ≡ none
    unfolding take_next
    settle-failure i none s h = h
    settle-failure i (some a) s h = rw (good a) (ground arith)

    on_settled-failure :
        (i : ℕ) (s : Pool R) → s.failure ≡ none → (on_settled items fn i s).failure ≡ none
    unfolding on_settled
    on_settled-failure i s h = elim (Bool-cases (mem i s.flights)) [
      | inl m ↦ rw m (settle-failure i (get_elem? items i) s h)
      | inr out ↦ rw out h
    ]

    run-failure :
        (s : Pool R) (history : List ℕ) → s.failure ≡ none → (run items fn s history).failure ≡ none
    unfolding run
    run-failure s [] h = h
    run-failure s (i ∷ history) h =
        run-failure (on_settled items fn i s) history (on_settled-failure i s h)

    spawn-failure : (m : ℕ) (s : Pool R) → s.failure ≡ none → (spawn items fn m s).failure ≡ none
    unfolding spawn take_next
    spawn-failure zero s h = h
    spawn-failure (suc m) s h = spawn-failure m (take_next items fn s) (ground arith)

    -- What the whole call has come to after `n` of its calls settled.
    abbrev pub Answers : Outcome R → ℕ → Type 0
    Answers pending n = n < length items
    Answers (fulfilled results) n =
        (n ≡ length items) × ((k : ℕ) (a : A) → get_elem? items k ≡ some a → results k ≡ some (f a))
    Answers (failed e) n = ⊥

    all_taken :
        (w : ℕ) (s : Pool R)
        → Inv w s
        → s.failure ≡ none
        → s.flights ≡ []
        → (0 < length items → 0 < w)
        → s.next ≡ length items
    all_taken w s v ok idle pos = elim (Bool-cases (ltb s.next (length items))) [
      | inl lt ↦
          let lt' : s.next < length items = ltb→lt _ _ lt in
          absurd (omega (arith, v.busy ok lt', ap length idle, pos (omega arith)))
      | inr ge ↦ ground (arith, v.next_bounds)
    ]

    Inv-Answers :
        (w n : ℕ) (s : Pool R)
        → Inv w s
        → s.failure ≡ none
        → left s + n ≡ length items
        → (0 < length items → 0 < w)
        → Answers (outcome s) n
    unfolding outcome mem
    Inv-Answers w n s v ok l pos = elim (List-cases s.flights) [
      | inl idle ↦
          let all_begun : s.next ≡ length items = all_taken w s v ok idle pos in
          rw (ok, idle)
            (
              omega (arith, ap length idle),
              λ k a at.
                  v.answered k a (f a) (omega (arith, get_elem?-lt items k a at)) (rw idle refl) at
                    (good a),
            )
      | inr (i, is, h) ↦ rw (ok, h) (omega (arith, ap length h, v.next_bounds))
    ]

    -- Where no call fails, in every order of settlements: the whole call is pending until each item's
    -- call has settled, and then it is fulfilled with the results in the items' order.
    pub map_limit-Answers :
        (limit : ℕ) (history : List ℕ)
        → Settles (begin items fn limit) history
        → Answers (outcome (map_limit items fn limit history)) (length history)
    unfolding begin
    map_limit-Answers limit history h =
        let w = workers items fn limit in
        Inv-Answers w (length history) (map_limit items fn limit history)
          (run-Inv w (begin items fn limit) history (begin-Inv limit))
          (run-failure (begin items fn limit) history (spawn-failure w (new_pool items fn) refl))
          (omega (
            arith,
            run-left w (begin items fn limit) history (begin-Inv limit) h,
            spawn-left w (new_pool items fn),
          ))
          (λ p. omega arith)
