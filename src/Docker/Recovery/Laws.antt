-- ===== src/Docker/Recovery/Laws.antt =====
-- Which crashes are queued, and what becomes of the queue.
use obs_instance_manager.Prelude.{
  ℕ, ◌+◌, ◌≤◌, String, ◌≡◌, refl, ◌↔◌, inl, inr, true, Option, none, some, List, [], ◌∷◌, arith,
  leb, if◌then◌else◌, ◌==◌, Option-cases, Bool-cases,
}
use obs_instance_manager.Prelude.Dict
use obs_instance_manager.Prelude.Dict.{get-set}
use obs_instance_manager.Effects.{Error, ok, err, World}
use obs_instance_manager.Effects.Rules.{Result-cases}
use obs_instance_manager.Instances.Services.{Instance, Services}
use obs_instance_manager.Instances.Start.Signals.{IsOk}
use obs_instance_manager.Docker.Recovery.{
  GpuRecovery, die_correlation_window_ms, queue_if_gpu_correlated, resume_crashed, resume_if_down,
  recover_each, recover_instances,
}

-- A crash is queued exactly when the X server is down and went down no longer than the window ago;
-- it then stands in the queue, and the other entries and the time are as before.
pub queue_iff :
    (now : ℕ) (id node_id : String) (g : GpuRecovery)
    → let (queued, g') = queue_if_gpu_correlated now id node_id g in
      ((queued ≡ true)
        ↔ ((since : ℕ) × (g.down_since ≡ some since) × (now ≤ since + die_correlation_window_ms)))
      × (g'.down_since ≡ g.down_since)
      × ((other : String)
          → Dict.get g'.pending other ≡ (
              if queued
              then (if id == other then some node_id else Dict.get g.pending other)
              else Dict.get g.pending other))
unfolding queue_if_gpu_correlated
queue_iff now id node_id g = elim (Option-cases g.down_since) [
  | inl e ↦
      rw (e, queue_if_gpu_correlated)
        ((λ h. ground arith, λ (s, h, k). ground arith), refl, λ other. refl)
  | inr (since, e) ↦ elim (Bool-cases (leb now (since + die_correlation_window_ms))) [
    | inl q ↦
        rw (e, queue_if_gpu_correlated, q)
          (
            (λ h. (since, refl, ground arith), λ h. refl),
            refl,
            λ other. get-set g.pending id other node_id,
          )
    | inr q ↦
        rw (e, queue_if_gpu_correlated, q)
          ((λ h. ground arith, λ (s, h, k). ground arith), refl, λ other. refl)
  ]
]

module _ {E : Type 0} (svc : Services E) where
  resume_crashed-ok :
      (instance : Instance) (w : World E) → (resume_crashed svc instance w).0 ≡ ok tt
  unfolding resume_crashed
  resume_crashed-ok instance w = ground arith

  resume_if_down-ok :
      (found : Option Instance) (w : World E) → (resume_if_down svc found w).0 ≡ ok tt
  resume_if_down-ok none w = refl
  resume_if_down-ok (some instance) w = ground (arith, resume_crashed-ok instance w)

  -- While the lookups succeed, a recovery pass reaches every queued instance: a start that fails
  -- does not end it.
  pub recover_each-ok :
      (ids : List String) (w : World E)
      → ((id : String) (env : E) → IsOk (svc.get_row id env).0)
      → (recover_each svc ids w).0 ≡ ok tt
  unfolding recover_each
  recover_each-ok [] w h = refl
  recover_each-ok (id ∷ ids) w h = elim (Result-cases (svc.get_row id w.env).0) [
    | inr (e, q) ↦ ground (arith, h id w.env, q)
    | inl (found, q) ↦
        let w1 = record w { env = (svc.get_row id w.env).1 } in
        rw (q, resume_if_down-ok found w1) (recover_each-ok ids (resume_if_down svc found w1).1 h)
  ]

  -- The gap in the error handling: if the lookup of the first queued instance fails, the pass throws
  -- with nothing started, and the queue is empty, so none of the queued instances is started again.
  pub recovery_lost :
      (g : GpuRecovery) (w : World E) (id node_id : String) (rest : List (String × String))
      (e : Error)
      → g.pending ≡ (id, node_id) ∷ rest
      → (svc.get_row id w.env).0 ≡ err e
      → let (r, g') = recover_instances svc g w in
        (r.0 ≡ err e) × (r.1.trace ≡ w.trace) × (g'.pending ≡ [])
  unfolding recover_instances recover_each
  recovery_lost g w id node_id rest e h q = rw (h, q) (refl, refl, refl)
