-- ===== src/Lock/Exclusion.antt =====
-- What the lock promises: mutual exclusion in call order, no deadlock, and no entry left behind.
use obs_instance_manager.Prelude.{
  ℕ, zero, suc, ◌+◌, ◌≤◌, ◌<◌, String, ◌≡◌, refl, sym, ◌≢◌, ◌⊎◌, inl, inr, true, false, some, arith,
  eqb, eq_iff, subst, Option-cases, Bool-cases,
}
use obs_instance_manager.Prelude.Dict
use obs_instance_manager.Prelude.Dict.{get-set, get-remove}
use obs_instance_manager.Lock.{
  Phase, waiting, running, settled, Job, Locks, release_tail, is_instance_locked, IsReady, Step,
  call, start, settle, clean, Reach, here, next,
}
use obs_instance_manager.Lock.Invariant.{Inv, idle-Inv, call-Inv}
use obs_instance_manager.Lock.Phases.{start-Inv, settle-Inv}

module _ (s : Locks) (v : Inv s) (k : ℕ) (j : Job) (ek : s.job k ≡ some j)
    (done : j.phase ≡ settled) where
  -- Every job of an instance up to a settled one is settled.
  up_to_settled :
      (i : ℕ) (a : Job)
      → i ≤ k
      → s.job i ≡ some a
      → a.instance_id ≡ j.instance_id
      → a.phase ≡ settled
  up_to_settled i a l e same = ground (arith, v.order i k a j)

  removed : Locks
  removed = record s { tails = Dict.remove s.tails j.instance_id }

  removed-Inv : Dict.get s.tails j.instance_id ≡ some k → Inv removed
  unfolding removed
  removed-Inv h = record {
    past = v.past;
    order = v.order;
    first = v.first;
    after = v.after;
    known = v.known;
    tail = λ id t q. v.tail id t (ground (arith, get-remove s.tails j.instance_id id));
    last = λ id t i a q. v.last id t i a (ground (arith, get-remove s.tails j.instance_id id));
    free = λ id i a q r e. ground (
      arith,
      get-remove s.tails j.instance_id id,
      eq_iff j.instance_id id,
      v.free id i a,
      v.last id k i a,
      up_to_settled i a,
    );
  }

  clean-Inv : Inv (release_tail k j s)
  unfolding release_tail removed
  clean-Inv = elim (Option-cases (Dict.get s.tails j.instance_id)) [
    | inl e ↦ rw (e, release_tail) v
    | inr (t, e) ↦ elim (Bool-cases (eqb t k)) [
      | inl same ↦ rw (e, release_tail, same) (removed-Inv (ground arith))
      | inr other ↦ rw (e, release_tail, other) v
    ]
  ]

Step-Inv : {s t : Locks} → Step s t → Inv s → Inv t
Step-Inv {s} (call id e) v = subst Inv (sym e) (call-Inv s v id)
Step-Inv {s} (start k j ek h r e) v = subst Inv (sym e) (start-Inv s v k j ek h r)
Step-Inv {s} (settle k j ek h e) v = subst Inv (sym e) (settle-Inv s v k j ek h)
Step-Inv {s} (clean k j ek h e) v = subst Inv (sym e) (clean-Inv s v k j ek h)

pub Reach-Inv : {s : Locks} → Reach s → Inv s
Reach-Inv here = idle-Inv
Reach-Inv (next r st) = Step-Inv st (Reach-Inv r)

-- Mutual exclusion: in every state that any interleaving of calls, starts, settlements and
-- callbacks reaches, at most one function of an instance runs.
pub exclusion :
    {s : Locks} (j k : ℕ) (a b : Job)
    → Reach s
    → s.job j ≡ some a
    → s.job k ≡ some b
    → a.instance_id ≡ b.instance_id
    → a.phase ≡ running
    → b.phase ≡ running
    → j ≡ k
exclusion j k a b r p q e h h' =
    let v = Reach-Inv r in ground (arith, v.order j k a b, v.order k j b a)

-- Calls for one instance are served in the order in which they were made: once a job has started,
-- every earlier job of its instance has settled.
pub fifo :
    {s : Locks} (j k : ℕ) (a b : Job)
    → Reach s
    → j < k
    → s.job j ≡ some a
    → s.job k ≡ some b
    → a.instance_id ≡ b.instance_id
    → b.phase ≢ waiting
    → a.phase ≡ settled
fifo j k a b r l p q e w = (Reach-Inv r).order j k a b l p q e w

-- While a function of an instance runs or waits, `isInstanceLocked` says so.
locked_while_pending :
    {s : Locks} (id : String) (k : ℕ) (a : Job)
    → Reach s
    → s.job k ≡ some a
    → a.instance_id ≡ id
    → a.phase ≢ settled
    → is_instance_locked id s ≡ true
unfolding is_instance_locked
locked_while_pending {s} id k a r p e h = elim (Option-cases (Dict.get s.tails id)) [
  | inl missing ↦ absurd (h ((Reach-Inv r).free id k a missing p e))
  | inr (t, found) ↦ rw found refl
]

-- A job that can move: it runs, or it waits for a promise that has settled.
abbrev pub CanMove : Locks → Job → Type 0
CanMove s a = (a.phase ≡ running) ⊎ ((a.phase ≡ waiting) × IsReady s a.previous)

Phase-cases : (p : Phase) → (p ≡ running) ⊎ (p ≡ waiting) ⊎ (p ≡ settled)
Phase-cases running = inl refl
Phase-cases waiting = inr (inl refl)
Phase-cases settled = inr (inr refl)

-- Some function of the instance runs or may start at once.
abbrev pub CanProgress : Locks → String → Type 0
CanProgress s id = (m : ℕ) × (b : Job) × (s.job m ≡ some b) × (b.instance_id ≡ id) × CanMove s b

-- A waiting job may start, or the job that it waits for is pending and stands before it.
progress_waiting :
    (s : Locks) (v : Inv s) (k : ℕ) (a : Job)
    → s.job k ≡ some a
    → a.phase ≡ waiting
    → ((q : ℕ) (b : Job)
        → q < k
        → s.job q ≡ some b
        → b.phase ≢ settled
        → CanProgress s b.instance_id)
    → CanProgress s a.instance_id
progress_waiting s v k a p w earlier = elim (Option-cases a.previous) [
  | inl e ↦ (k, a, p, refl, inr (w, subst (IsReady s) (sym e) tt))
  | inr (q, e) ↦ blocked q e (v.known k q a p e)
]
  where
    blocked :
        (q : ℕ)
        → a.previous ≡ some q
        → ((b : Job) × (s.job q ≡ some b) × (b.instance_id ≡ a.instance_id) × (q < k))
        → CanProgress s a.instance_id
    blocked q e (b, eb, ei, below) = elim (Phase-cases b.phase) [
      | inl r ↦ (q, b, eb, ei, inl r)
      | inr (inr d) ↦ (k, a, p, refl, inr (w, subst (IsReady s) (sym e) (b, eb, d)))
      | inr (inl u) ↦ subst (CanProgress s) ei (earlier q b below eb (λ d. cc))
    ]

progress_below :
    (n : ℕ) {s : Locks} (k : ℕ) (a : Job)
    → Inv s
    → k < n
    → s.job k ≡ some a
    → a.phase ≢ settled
    → CanProgress s a.instance_id
progress_below zero k a v l p h = elim l [ ]
progress_below (suc n) {s} k a v l p h = elim (Phase-cases a.phase) [
  | inl r ↦ (k, a, p, refl, inl r)
  | inr (inr d) ↦ absurd (h d)
  | inr (inl w) ↦
      progress_waiting s v k a p w
        (λ q b below e pending. progress_below n q b v (omega arith) e pending)
]

-- No deadlock: while a function of an instance has not settled, some function of that instance
-- runs or may start at once.
pub progress :
    {s : Locks} (k : ℕ) (a : Job)
    → Reach s
    → s.job k ≡ some a
    → a.phase ≢ settled
    → CanProgress s a.instance_id
progress {s} k a r p h = progress_below (k + 1) k a (Reach-Inv r) (omega arith) p h

-- When the last job of an instance has settled, its callback takes the entry away: the instance is
-- not locked any more.
unlocked_after_last :
    {s : Locks} (id : String) (t : ℕ) (a : Job)
    → Reach s
    → Dict.get s.tails id ≡ some t
    → s.job t ≡ some a
    → is_instance_locked id (release_tail t a s) ≡ false
unfolding is_instance_locked release_tail
unlocked_after_last {s} id t a r q p =
    let (b, eb, ei) = (Reach-Inv r).tail id t q in
    let same : a.instance_id ≡ id = ground (arith, ei) in
    rw (same, q, release_tail) (ground (arith, get-remove s.tails id id, eq_iff id id))
