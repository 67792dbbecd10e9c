-- ===== src/Lock/Invariant.antt =====
-- What holds of the lock's map and jobs between any two steps.
use obs_instance_manager.Prelude.{
  ℕ, ◌+◌, ◌≤◌, ◌<◌, String, ◌≡◌, refl, ◌≢◌, inl, inr, none, some, arith, eqb, eq_iff, ◌==◌,
  Bool-cases,
}
use obs_instance_manager.Prelude.Dict
use obs_instance_manager.Prelude.Dict.{get-set, get-remove}
use obs_instance_manager.Lock.{waiting, settled, Job, Locks, idle, with_instance_lock}

pub record Inv (s : Locks) : Type 0 where
  pub past : (j : ℕ) → s.next ≤ j → s.job j ≡ none
  pub order :
      (j k : ℕ) (a b : Job)
      → j < k
      → s.job j ≡ some a
      → s.job k ≡ some b
      → a.instance_id ≡ b.instance_id
      → b.phase ≢ waiting
      → a.phase ≡ settled
  pub first :
      (j k : ℕ) (a b : Job)
      → j < k
      → s.job j ≡ some a
      → s.job k ≡ some b
      → a.instance_id ≡ b.instance_id
      → b.previous ≡ none
      → a.phase ≡ settled
  pub after :
      (j k p : ℕ) (a b : Job)
      → j < k
      → s.job j ≡ some a
      → s.job k ≡ some b
      → a.instance_id ≡ b.instance_id
      → b.previous ≡ some p
      → j ≤ p
  pub known :
      (k p : ℕ) (b : Job)
      → s.job k ≡ some b
      → b.previous ≡ some p
      → (a : Job) × (s.job p ≡ some a) × (a.instance_id ≡ b.instance_id) × (p < k)
  pub tail :
      (id : String) (t : ℕ)
      → Dict.get s.tails id ≡ some t
      → (a : Job) × (s.job t ≡ some a) × (a.instance_id ≡ id)
  pub last :
      (id : String) (t j : ℕ) (a : Job)
      → Dict.get s.tails id ≡ some t
      → s.job j ≡ some a
      → a.instance_id ≡ id
      → j ≤ t
  pub free :
      (id : String) (j : ℕ) (a : Job)
      → Dict.get s.tails id ≡ none
      → s.job j ≡ some a
      → a.instance_id ≡ id
      → a.phase ≡ settled

pub idle-Inv : Inv idle
unfolding Dict.get
idle-Inv = record {
  past = λ j h. refl;
  order = λ j k a b l p. cc;
  first = λ j k a b l p. cc;
  after = λ j k p a b l q. cc;
  known = λ k p b q. cc;
  tail = λ id t q. cc;
  last = λ id t j a q. cc;
  free = λ id j a h q. cc;
}

module _ (s : Locks) (v : Inv s) where
  pub below_next : (j : ℕ) (a : Job) → s.job j ≡ some a → j < s.next
  below_next j a e = ground (arith, v.past j)

  module _ (id : String) where
    call-past : (j : ℕ) → s.next + 1 ≤ j → (with_instance_lock id s).job j ≡ none
    unfolding with_instance_lock
    call-past j h = ground (arith, v.past j)

    call-order :
        (j k : ℕ) (a b : Job)
        → j < k
        → (with_instance_lock id s).job j ≡ some a
        → (with_instance_lock id s).job k ≡ some b
        → a.instance_id ≡ b.instance_id
        → b.phase ≢ waiting
        → a.phase ≡ settled
    unfolding with_instance_lock
    call-order j k a b l p q e w = ground (arith, v.order j k a b, below_next k b)

    call-first :
        (j k : ℕ) (a b : Job)
        → j < k
        → (with_instance_lock id s).job j ≡ some a
        → (with_instance_lock id s).job k ≡ some b
        → a.instance_id ≡ b.instance_id
        → b.previous ≡ none
        → a.phase ≡ settled
    unfolding with_instance_lock
    call-first j k a b l p q e w = ground (arith, v.first j k a b, below_next k b, v.free id j a)

    call-after :
        (j k p : ℕ) (a b : Job)
        → j < k
        → (with_instance_lock id s).job j ≡ some a
        → (with_instance_lock id s).job k ≡ some b
        → a.instance_id ≡ b.instance_id
        → b.previous ≡ some p
        → j ≤ p
    unfolding with_instance_lock
    call-after j k p a b l q r e w =
        ground (arith, v.after j k p a b, below_next k b, v.last id p j a)

    call-known :
        (k p : ℕ) (b : Job)
        → (with_instance_lock id s).job k ≡ some b
        → b.previous ≡ some p
        → (a : Job) × ((with_instance_lock id s).job p ≡ some a)
          × (a.instance_id ≡ b.instance_id)
          × (p < k)
    unfolding with_instance_lock
    call-known k p b q r = elim (Bool-cases (eqb s.next k)) [
      | inl same ↦
          let (a, ea, ei) = v.tail id p (ground arith) in
          (a, ground (arith, below_next p a), ground arith, ground (arith, below_next p a))
      | inr other ↦
          let (a, ea, ei, l) = v.known k p b (ground arith) r in
          (a, ground (arith, below_next p a), ei, l)
    ]

    call-tail :
        (i : String) (t : ℕ)
        → Dict.get (with_instance_lock id s).tails i ≡ some t
        → (a : Job) × ((with_instance_lock id s).job t ≡ some a) × (a.instance_id ≡ i)
    unfolding with_instance_lock
    call-tail i t q = elim (Bool-cases (id == i)) [
      | inl same ↦ (
        record { instance_id = id; previous = Dict.get s.tails id; phase = waiting },
        ground (arith, get-set s.tails id i s.next),
        (eq_iff id i).0 same,
      )
      | inr other ↦
          let (a, ea, ei) = v.tail i t (ground (arith, get-set s.tails id i s.next)) in
          (a, ground (arith, below_next t a), ei)
    ]

    call-last :
        (i : String) (t j : ℕ) (a : Job)
        → Dict.get (with_instance_lock id s).tails i ≡ some t
        → (with_instance_lock id s).job j ≡ some a
        → a.instance_id ≡ i
        → j ≤ t
    unfolding with_instance_lock
    call-last i t j a q r e =
        ground (arith, get-set s.tails id i s.next, v.last i t j a, below_next j a, eq_iff id i)

    call-free :
        (i : String) (j : ℕ) (a : Job)
        → Dict.get (with_instance_lock id s).tails i ≡ none
        → (with_instance_lock id s).job j ≡ some a
        → a.instance_id ≡ i
        → a.phase ≡ settled
    unfolding with_instance_lock
    call-free i j a q r e = ground (arith, get-set s.tails id i s.next, v.free i j a, eq_iff id i)

    pub call-Inv : Inv (with_instance_lock id s)
    unfolding with_instance_lock
    call-Inv = record {
      past = call-past;
      order = call-order;
      first = call-first;
      after = call-after;
      known = call-known;
      tail = call-tail;
      last = call-last;
      free = call-free;
    }
