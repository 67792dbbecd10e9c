-- ===== src/Lock/Phases.antt =====
-- Starting and settling a job keep the invariant of the lock.
use obs_instance_manager.Prelude.{
  ℕ, ◌≤◌, ◌<◌, String, ◌≡◌, refl, ◌≢◌, inl, inr, none, some, arith, eqb, subst, ◌∙◌, sym, ap,
  Option-cases, Bool-cases,
}
use obs_instance_manager.Prelude.Dict
use obs_instance_manager.Prelude.Dict.{get-set}
use obs_instance_manager.Lock.{Phase, waiting, running, settled, Job, Locks, with_phase, IsReady}
use obs_instance_manager.Lock.Invariant.{Inv, below_next}

module _ (s : Locks) (v : Inv s) (k : ℕ) (j : Job) (ek : s.job k ≡ some j) where
  module _ (ph : Phase) where
    moved :
        (m : ℕ) (a : Job)
        → s.job m ≡ some a
        → (b : Job) × ((with_phase k j ph s).job m ≡ some b) × (b.instance_id ≡ a.instance_id)
    unfolding with_phase
    moved m a e = elim (Bool-cases (eqb k m)) [
      | inl same ↦ (record j { phase = ph }, ground arith, ground arith)
      | inr other ↦ (a, ground arith, refl)
    ]

    phase-past : (i : ℕ) → s.next ≤ i → (with_phase k j ph s).job i ≡ none
    unfolding with_phase
    phase-past i h = ground (arith, v.past i, below_next s v k j)

    phase-after :
        (i m p : ℕ) (a b : Job)
        → i < m
        → (with_phase k j ph s).job i ≡ some a
        → (with_phase k j ph s).job m ≡ some b
        → a.instance_id ≡ b.instance_id
        → b.previous ≡ some p
        → i ≤ p
    unfolding with_phase
    phase-after i m p a b l q r e w =
        ground (arith, v.after i m p a b, v.after i m p j b, v.after i m p a j)

    phase-known :
        (m p : ℕ) (b : Job)
        → (with_phase k j ph s).job m ≡ some b
        → b.previous ≡ some p
        → (a : Job) × ((with_phase k j ph s).job p ≡ some a)
          × (a.instance_id ≡ b.instance_id)
          × (p < m)
    unfolding with_phase
    phase-known m p b q r = elim (Bool-cases (eqb k m)) [
      | inl same ↦
          let (a, ea, ei, l) = v.known k p j ek (ground arith) in
          let (a', ea', ei') = moved p a ea in (a', ea', ground arith, ground arith)
      | inr other ↦
          let (a, ea, ei, l) = v.known m p b (ground arith) r in
          let (a', ea', ei') = moved p a ea in (a', ea', ground arith, l)
    ]

    phase-tail :
        (i : String) (t : ℕ)
        → Dict.get (with_phase k j ph s).tails i ≡ some t
        → (a : Job) × ((with_phase k j ph s).job t ≡ some a) × (a.instance_id ≡ i)
    unfolding with_phase
    phase-tail i t q =
        let (a, ea, ei) = v.tail i t q in let (a', ea', ei') = moved t a ea in (a', ea', ei' ∙ ei)

    phase-last :
        (i : String) (t m : ℕ) (a : Job)
        → Dict.get (with_phase k j ph s).tails i ≡ some t
        → (with_phase k j ph s).job m ≡ some a
        → a.instance_id ≡ i
        → m ≤ t
    unfolding with_phase
    phase-last i t m a q r e = ground (arith, v.last i t m a, v.last i t m j)

  settled_before :
      (i p : ℕ) (a q : Job)
      → s.job p ≡ some q
      → q.phase ≡ settled
      → i ≤ p
      → s.job i ≡ some a
      → a.instance_id ≡ q.instance_id
      → a.phase ≡ settled
  settled_before i p a q eq h l e same = ground (arith, v.order i p a q)

  -- A job that may start has only settled jobs of its instance before it.
  ready_settled :
      (i : ℕ) (a : Job)
      → IsReady s j.previous
      → i < k
      → s.job i ≡ some a
      → a.instance_id ≡ j.instance_id
      → a.phase ≡ settled
  ready_settled i a r l e same = elim (Option-cases j.previous) [
    | inl alone ↦ v.first i k a j l e ek same alone
    | inr (p, ep) ↦
        let (q, eq, done) = subst (IsReady s) ep r in
        let (b, eb, ei, below) = v.known k p j ek ep in
        let qb : b ≡ q = cc in
        settled_before i p a q eq done (v.after i k p a j l e ek same ep) e
          (same ∙ sym ei ∙ ap (λ (x : Job). x.instance_id) qb)
  ]

  running-order :
      j.phase ≡ waiting
      → IsReady s j.previous
      → (i m : ℕ) (a b : Job) → i < m
      → (with_phase k j running s).job i ≡ some a
      → (with_phase k j running s).job m ≡ some b
      → a.instance_id ≡ b.instance_id
      → b.phase ≢ waiting
      → a.phase ≡ settled
  unfolding with_phase
  running-order h r i m a b l p q e w =
      ground (arith, v.order i m a b, v.order i m j b, ready_settled i a r)

  settled-order :
      j.phase ≡ running
      → (i m : ℕ) (a b : Job) → i < m
      → (with_phase k j settled s).job i ≡ some a
      → (with_phase k j settled s).job m ≡ some b
      → a.instance_id ≡ b.instance_id
      → b.phase ≢ waiting
      → a.phase ≡ settled
  unfolding with_phase
  settled-order r i m a b l p q e w =
      ground (arith, v.order i m a b, v.order i m a j, v.order i m j b)

  running-first :
      j.phase ≡ waiting
      → (i m : ℕ) (a b : Job) → i < m
      → (with_phase k j running s).job i ≡ some a
      → (with_phase k j running s).job m ≡ some b
      → a.instance_id ≡ b.instance_id
      → b.previous ≡ none
      → a.phase ≡ settled
  unfolding with_phase
  running-first h i m a b l p q e w =
      ground (arith, v.first i m a b, v.first i m j b, v.first i m a j)

  settled-first :
      (i m : ℕ) (a b : Job)
      → i < m
      → (with_phase k j settled s).job i ≡ some a
      → (with_phase k j settled s).job m ≡ some b
      → a.instance_id ≡ b.instance_id
      → b.previous ≡ none
      → a.phase ≡ settled
  unfolding with_phase
  settled-first i m a b l p q e w =
      ground (arith, v.first i m a b, v.first i m j b, v.first i m a j)

  running-free :
      j.phase ≡ waiting
      → (id : String) (m : ℕ) (a : Job) → Dict.get (with_phase k j running s).tails id ≡ none
      → (with_phase k j running s).job m ≡ some a
      → a.instance_id ≡ id
      → a.phase ≡ settled
  unfolding with_phase
  running-free h id m a q r e = ground (arith, v.free id m a, v.free id m j)

  settled-free :
      (id : String) (m : ℕ) (a : Job)
      → Dict.get (with_phase k j settled s).tails id ≡ none
      → (with_phase k j settled s).job m ≡ some a
      → a.instance_id ≡ id
      → a.phase ≡ settled
  unfolding with_phase
  settled-free id m a q r e = ground (arith, v.free id m a)

  pub start-Inv : j.phase ≡ waiting → IsReady s j.previous → Inv (with_phase k j running s)
  unfolding with_phase
  start-Inv h r = record {
    past = phase-past running;
    order = running-order h r;
    first = running-first h;
    after = phase-after running;
    known = phase-known running;
    tail = phase-tail running;
    last = phase-last running;
    free = running-free h;
  }

  pub settle-Inv : j.phase ≡ running → Inv (with_phase k j settled s)
  unfolding with_phase
  settle-Inv h = record {
    past = phase-past settled;
    order = settled-order h;
    first = settled-first;
    after = phase-after settled;
    known = phase-known settled;
    tail = phase-tail settled;
    last = phase-last settled;
    free = settled-free;
  }
