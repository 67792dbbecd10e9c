-- ===== src/Concurrency/Laws/Failing.antt =====
-- src/utils/concurrency.ts: what a failed call does to the others.
use obs_instance_manager.Prelude.{
  ℕ, zero, suc, ◌+◌, ◌≤◌, ◌<◌, ◌≡◌, true, Option, none, some, List, [], ◌∷◌, length, get_elem?,
  arith, max, min, ap, Bool-cases, inl, inr, ltb→lt, lt→ltb, ltb, subst,
}
use obs_instance_manager.Concurrency.{
  Settled, resolved, rejected, Pool, mem, take_next, settle, on_settled, spawn, workers, new_pool,
  begin, run, map_limit,
}
use obs_instance_manager.Concurrency.Laws.{
  Inv, Settles, length-land, Settled-cases, begun_item, on_settled-Inv, run-Inv, begin-Inv,
  run-left, spawn-left,
}

module _ {A R : Type 0} (items : List A) (fn : A → Settled R) where
  abbrev cost : Settled R → ℕ
  cost (resolved r) = 0
  cost (rejected e) = 1

  abbrev cost_of : Option A → ℕ
  cost_of none = 0
  cost_of (some a) = cost (fn a)

  -- How many of these settlements are rejections.
  unfoldable pub rejections : List ℕ → ℕ
  rejections [] = 0
  rejections (i ∷ history) = cost_of (get_elem? items i) + rejections history

  -- While items are left, each worker that has not failed has a call in flight.
  abbrev IsBusy : ℕ → ℕ → Pool R → Type 0
  IsBusy w failures s = s.next < length items → w ≤ length s.flights + failures

  take_next-IsBusy : (w n : ℕ) (s : Pool R) → IsBusy w (n + 1) s → IsBusy w n (take_next items fn s)
  unfolding take_next
  take_next-IsBusy w n s h = elim (Bool-cases (ltb s.next (length items))) [
    | inl more ↦ rw more (λ lt. omega (arith, h (omega (arith, lt))))
    | inr all_taken ↦ rw all_taken (λ lt. absurd (cc (lt→ltb _ _ lt)))
  ]

  settle-IsBusy :
      (w n i : ℕ) (a : A) (s : Pool R)
      → mem i s.flights ≡ true
      → IsBusy w n s
      → IsBusy w (n + cost (fn a)) (settle items fn i (some (fn a)) s)
  settle-IsBusy w n i a s m h = elim (Settled-cases (fn a)) [
    | inl (r, e) ↦ rw e (
        subst (λ k. IsBusy w k (settle items fn i (some (resolved r)) s)) (omega arith)
          (take_next-IsBusy w n _ (λ lt. omega (arith, h lt, length-land i s.flights m))))
    | inr (x, e) ↦ rw e (λ lt. omega (arith, h lt, length-land i s.flights m))
  ]

  spawn-IsBusy : (m w : ℕ) (s : Pool R) → IsBusy w 0 s → IsBusy (w + m) 0 (spawn items fn m s)
  unfolding spawn
  spawn-IsBusy zero w s h = λ lt. omega (arith, h lt)
  spawn-IsBusy (suc m) w s h =
      subst (λ k. IsBusy k 0 (spawn items fn (suc m) s)) (omega arith)
        (spawn-IsBusy m (w + 1) (take_next items fn s)
          (take_next-IsBusy (w + 1) 0 s (λ lt. omega (arith, h lt))))

  run-IsBusy :
      (v w n : ℕ) (s : Pool R) (history : List ℕ)
      → Inv items fn v s
      → Settles items fn s history
      → IsBusy w n s
      → IsBusy w (n + rejections history) (run items fn s history)
  unfolding run Settles on_settled rejections
  run-IsBusy v w n s [] inv h busy = λ lt. omega (arith, busy lt)
  run-IsBusy v w n s (i ∷ history) inv (m, h) busy =
      let (a, at) = begun_item items fn v i s inv m in
      subst (λ k. IsBusy w k (run items fn (on_settled items fn i s) history))
        (omega (arith, ap cost_of at))
        ((run-IsBusy v w (n + cost (fn a)) (on_settled items fn i s) history
          (on_settled-Inv items fn v i s inv) h (rw (m, at) (settle-IsBusy w n i a s m busy))))

  -- A failed call does not stop the others. Where every settlement is that of a call in flight, no
  -- call is in flight any more, and fewer calls have failed than there are workers, the call for
  -- every item was begun and has settled, whenever the failures were.
  pub begun_after_failure :
      (limit : ℕ) (history : List ℕ)
      → Settles items fn (begin items fn limit) history
      → (map_limit items fn limit history).flights ≡ []
      → rejections history < min (max 1 limit) (length items)
      → ((map_limit items fn limit history).next ≡ length items) × (length history ≡ length items)
  unfolding begin
  begun_after_failure limit history h idle few =
      let w = workers items fn limit in
      let s = map_limit items fn limit history in
      let v = run-Inv items fn w (begin items fn limit) history (begin-Inv items fn limit) in
      let busy : IsBusy w (0 + rejections history) s =
        run-IsBusy w w 0 (begin items fn limit) history (begin-Inv items fn limit) h
          (λ lt. omega (arith, spawn-IsBusy w 0 (new_pool items fn) (λ lt. omega arith) lt)) in
      let begun : s.next ≡ length items = elim (Bool-cases (ltb s.next (length items))) [
        | inl lt ↦ absurd (omega (arith, busy (ltb→lt _ _ lt), ap length idle, few))
        | inr ge ↦ ground (arith, v.next_bounds)
      ] in
      (
        begun,
        omega (
          arith,
          run-left items fn w (begin items fn limit) history (begin-Inv items fn limit) h,
          spawn-left items fn w (new_pool items fn),
          begun,
          ap length idle,
        ),
      )
