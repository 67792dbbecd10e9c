-- ===== src/Docker/Reconcile/Laws.antt =====
-- What a reconcile reports, and that its reports are true.
use obs_instance_manager.Prelude.{
  String, ◌≡◌, refl, subst, ◌≢◌, ◌⊎◌, inl, inr, Option, none, some, List, [], ◌∷◌, arith,
}
use obs_instance_manager.Effects.{
  Error, Result, ok, err, Fields, patch_row, broadcast, track_event, LifecycleAction, is_started,
  is_error, crash, InstanceStatus, creating, running, stopped, error, ReconcileAction, marked_error,
  marked_running, marked_stopped, restarted, restart_gave_up, no_change, World,
}
use obs_instance_manager.Effects.Rules.{Result-cases}
use obs_instance_manager.Instances.Services.{
  Instance, DockerStatus, not_found, unknown, status_of, Services, get_container_status,
  update_instance,
}
use obs_instance_manager.Instances.Services
use obs_instance_manager.Instances.Start.{usable, restart_instance}
use obs_instance_manager.Instances.Start.Signals.{IsOk}
use obs_instance_manager.Docker.Reconcile.{
  only_status, resume_missing, mark_missing, mark_running, mark_stopped, by_status,
  reconcile_container, with_action, reconcile_each,
}

module _ {E : Type 0} (svc : Services E) where
  -- What a reported action says of Docker and of the row, and of what was done in between: the change
  -- of the row and what was told, the start that returned, or the start that threw.
  abbrev pub Tells :
      Instance → ReconcileAction → DockerStatus → InstanceStatus → World E → World E → Type 0
  Tells i marked_running docker row w w' =
      (docker ≡ Services.is_running)
      × (row ≢ running)
      × (w'.trace
          ≡ broadcast i.id is_started
            ∷ patch_row i.id (record { container_id = none; status = some running })
            ∷ w.trace)
  Tells i marked_stopped docker row w w' =
      (docker ≡ Services.is_stopped)
      × (row ≡ running)
      × (w'.trace
          ≡ broadcast i.id LifecycleAction.is_stopped
            ∷ patch_row i.id (record { container_id = none; status = some stopped })
            ∷ w.trace)
  Tells i marked_error docker row w w' =
      (docker ≡ not_found)
      × (row ≢ running)
      × (row ≢ error)
      × (w'.trace
          ≡ track_event i.id crash
            ∷ broadcast i.id is_error
            ∷ patch_row i.id (record { container_id = none; status = some error })
            ∷ w.trace)
  Tells i restarted docker row w w' =
      (docker ≡ not_found)
      × (row ≡ running)
      × ((started : Instance) × ((restart_instance svc i w).0 ≡ ok started))
  Tells i restart_gave_up docker row w w' =
      (docker ≡ not_found)
      × (row ≡ running)
      × ((e : Error) × ((restart_instance svc i w).0 ≡ err e))
  Tells i no_change docker row w w' =
      (((docker ≡ Services.is_running) × (row ≡ running))
        ⊎ ((docker ≡ Services.is_stopped) × (row ≢ running))
        ⊎ ((docker ≡ not_found) × (row ≡ error)))
      × (w' ≡ w)

  resume_missing-cases :
      (instance : Instance) (w : World E)
      → (((resume_missing svc instance w).0 ≡ ok restarted)
          × ((started : Instance) × ((restart_instance svc instance w).0 ≡ ok started)))
        ⊎ (((resume_missing svc instance w).0 ≡ ok restart_gave_up)
            × ((e : Error) × ((restart_instance svc instance w).0 ≡ err e)))
  unfolding resume_missing
  resume_missing-cases instance w = elim (Result-cases (restart_instance svc instance w).0) [
    | inl (i, q) ↦ inl (ground (arith, q), (i, q))
    | inr (e, q) ↦ inr (ground (arith, q), (e, q))
  ]

  -- One instance: what is reported is true, and only an unknown state is not reported.
  by_status-Tells :
      (docker : DockerStatus) (row : InstanceStatus) (instance : Instance) (w : World E)
      (result : Option ReconcileAction)
      → (by_status svc docker row instance w).0 ≡ ok result
      → ((result ≡ none) × (docker ≡ unknown) × ((by_status svc docker row instance w).1 ≡ w))
        ⊎ ((action : ReconcileAction) × (result ≡ some action)
            × Tells instance action docker row w (by_status svc docker row instance w).1)
  unfolding by_status mark_missing mark_running mark_stopped update_instance
  by_status-Tells unknown row instance w result h = inl (ground arith, refl, refl)
  by_status-Tells not_found running instance w result h = elim (resume_missing-cases instance w) [
    | inl (q, started) ↦ inr (restarted, ground (arith, q), (refl, refl, started))
    | inr (q, gave_up) ↦ inr (restart_gave_up, ground (arith, q), (refl, refl, gave_up))
  ]
  by_status-Tells not_found error instance w result h =
      inr (no_change, ground arith, (inr (inr (refl, refl)), refl))
  by_status-Tells not_found creating instance w result h =
      inr (marked_error, ground arith, (refl, (λ e. cc), (λ e. cc), ground (arith, h)))
  by_status-Tells not_found stopped instance w result h =
      inr (marked_error, ground arith, (refl, (λ e. cc), (λ e. cc), ground (arith, h)))
  by_status-Tells Services.is_running running instance w result h =
      inr (no_change, ground arith, (inl (refl, refl), refl))
  by_status-Tells Services.is_running creating instance w result h =
      inr (marked_running, ground arith, (refl, (λ e. cc), ground (arith, h)))
  by_status-Tells Services.is_running stopped instance w result h =
      inr (marked_running, ground arith, (refl, (λ e. cc), ground (arith, h)))
  by_status-Tells Services.is_running error instance w result h =
      inr (marked_running, ground arith, (refl, (λ e. cc), ground (arith, h)))
  by_status-Tells Services.is_stopped running instance w result h =
      inr (marked_stopped, ground arith, (refl, refl, ground (arith, h)))
  by_status-Tells Services.is_stopped creating instance w result h =
      inr (no_change, ground arith, (inr (inl (refl, λ e. cc)), refl))
  by_status-Tells Services.is_stopped stopped instance w result h =
      inr (no_change, ground arith, (inr (inl (refl, λ e. cc)), refl))
  by_status-Tells Services.is_stopped error instance w result h =
      inr (no_change, ground arith, (inr (inl (refl, λ e. cc)), refl))

-- The world after an inspection.
abbrev pub inspected : {E : Type 0} → Services E → String → World E → World E
inspected svc container_id w = record w { env = (svc.inspect container_id w.env).1 }

-- From a world on, the results are those of the instances, in order; left out are the instances
-- without a container and those of whose container Docker's state was unknown when it was asked; each
-- reported action is true of what Docker answered when it was asked and of what was done then.
pub data Reports {E : Type 0} (svc : Services E)
    : World E → List Instance → List (String × ReconcileAction) → Type 0 where
  end : {w : World E} → Reports svc w [] []
  no_container :
      {w : World E} {is : List Instance} {rs : List (String × ReconcileAction)} (i : Instance)
      → usable i.container_id ≡ none
      → Reports svc w is rs
      → Reports svc w (i ∷ is) rs
  not_known :
      {w : World E} {is : List Instance} {rs : List (String × ReconcileAction)} (i : Instance)
      (container_id : String)
      → usable i.container_id ≡ some container_id
      → status_of (svc.inspect container_id w.env).0 ≡ unknown
      → Reports svc (inspected svc container_id w) is rs
      → Reports svc w (i ∷ is) rs
  reported :
      {w : World E} {is : List Instance} {rs : List (String × ReconcileAction)} (i : Instance)
      (container_id : String) (action : ReconcileAction) (w' : World E)
      → usable i.container_id ≡ some container_id
      → Tells svc i action
          (status_of (svc.inspect container_id w.env).0)
          i.status
          (inspected svc container_id w)
          w'
      → Reports svc w' is rs
      → Reports svc w (i ∷ is) ((i.id, action) ∷ rs)

module _ {E : Type 0} (svc : Services E) where
  one_Reports :
      (i : Instance) (container : Option String) (w : World E) (result : Option ReconcileAction)
      (is : List Instance) (rs : List (String × ReconcileAction))
      → usable i.container_id ≡ container
      → (reconcile_container svc i container w).0 ≡ ok result
      → Reports svc (reconcile_container svc i container w).1 is rs
      → Reports svc w (i ∷ is) (with_action i.id result rs)
  unfolding get_container_status
  one_Reports i none w none is rs e h r = no_container i e r
  one_Reports i none w (some action) is rs e h r = absurd (ground arith)
  one_Reports i (some id) w result is rs e h r =
      elim (by_status-Tells svc (status_of (svc.inspect id w.env).0) i.status i (inspected svc id w)
        result h) [
          | inl (n, q, same) ↦ rw n (not_known i id e q (subst (λ v. Reports svc v is rs) same r))
          | inr (action, n, q) ↦ rw n (reported i id action _ e q r)
        ]

  emptied :
      {results : List (String × ReconcileAction)}
      → ◌≡◌ {A = Result (List (String × ReconcileAction))} (ok []) (ok results)
      → [] ≡ results
  emptied h = ground (arith, h)

  -- If the loop over the rows ends, its results are such a list.
  pub reconcile_each-Reports :
      (instances : List Instance) (w : World E) (results : List (String × ReconcileAction))
      → (reconcile_each svc instances w).0 ≡ ok results
      → Reports svc w instances results
  unfolding reconcile_each
  reconcile_each-Reports [] w results h = subst (Reports svc w []) (emptied h) end
  reconcile_each-Reports (i ∷ is) w results h =
      elim (Result-cases (reconcile_container svc i (usable i.container_id) w).0) [
        | inr (e, q) ↦ absurd (ground (arith, q, h))
        | inl (action, q) ↦
            let w1 = (reconcile_container svc i (usable i.container_id) w).1 in
            elim (Result-cases (reconcile_each svc is w1).0) [
              | inr (e, r) ↦ absurd (ground (arith, q, r, h))
              | inl (rs, r) ↦ subst (Reports svc w (i ∷ is)) (the_results action rs q r) (
                  one_Reports i (usable i.container_id) w action is rs refl q
                    (reconcile_each-Reports is w1 rs r))
            ]
      ]
    where
      the_results :
          (action : Option ReconcileAction) (rs : List (String × ReconcileAction))
          → (reconcile_container svc i (usable i.container_id) w).0 ≡ ok action
          → (reconcile_each svc is (reconcile_container svc i (usable i.container_id) w).1).0
            ≡ ok rs
          → with_action i.id action rs ≡ results
      the_results action rs q r = ground (arith, q, r, h)

-- rest-api takes every change of a row.
abbrev pub TakesChanges : {E : Type 0} → Services E → Type 0
TakesChanges {E} svc = (id : String) (fields : Fields) (env : E) → IsOk (svc.patch id fields env).0

module _ {E : Type 0} (svc : Services E) (takes : TakesChanges svc) where
  update_instance-ok :
      (id : String) (fields : Fields) (w : World E)
      → (i : Instance) × ((update_instance svc id fields w).0 ≡ ok i)
  unfolding update_instance
  update_instance-ok id fields w = elim (Result-cases (svc.patch id fields w.env).0) [
    | inl (i, q) ↦ (i, ground (arith, q))
    | inr (e, q) ↦ absurd (ground (arith, q, takes id fields w.env))
  ]

  mark_missing-ok : (i : Instance) (w : World E) → (mark_missing svc i w).0 ≡ ok marked_error
  unfolding mark_missing
  mark_missing-ok i w = ground (arith, update_instance-ok i.id (only_status error) w)

  mark_running-ok : (i : Instance) (w : World E) → (mark_running svc i w).0 ≡ ok marked_running
  unfolding mark_running
  mark_running-ok i w = ground (arith, update_instance-ok i.id (only_status running) w)

  mark_stopped-ok : (i : Instance) (w : World E) → (mark_stopped svc i w).0 ≡ ok marked_stopped
  unfolding mark_stopped
  mark_stopped-ok i w = ground (arith, update_instance-ok i.id (only_status stopped) w)

  by_status-ok :
      (docker : DockerStatus) (row : InstanceStatus) (i : Instance) (w : World E)
      → (result : Option ReconcileAction) × ((by_status svc docker row i w).0 ≡ ok result)
  unfolding by_status
  by_status-ok unknown row i w = (none, refl)
  by_status-ok not_found running i w = elim (resume_missing-cases svc i w) [
    | inl (q, _) ↦ (some restarted, ground (arith, q))
    | inr (q, _) ↦ (some restart_gave_up, ground (arith, q))
  ]
  by_status-ok not_found error i w = (some no_change, refl)
  by_status-ok not_found creating i w = (some marked_error, ground (arith, mark_missing-ok i w))
  by_status-ok not_found stopped i w = (some marked_error, ground (arith, mark_missing-ok i w))
  by_status-ok Services.is_running running i w = (some no_change, refl)
  by_status-ok Services.is_running creating i w =
      (some marked_running, ground (arith, mark_running-ok i w))
  by_status-ok Services.is_running stopped i w =
      (some marked_running, ground (arith, mark_running-ok i w))
  by_status-ok Services.is_running error i w =
      (some marked_running, ground (arith, mark_running-ok i w))
  by_status-ok Services.is_stopped running i w =
      (some marked_stopped, ground (arith, mark_stopped-ok i w))
  by_status-ok Services.is_stopped creating i w = (some no_change, refl)
  by_status-ok Services.is_stopped stopped i w = (some no_change, refl)
  by_status-ok Services.is_stopped error i w = (some no_change, refl)

  reconcile_container-ok :
      (i : Instance) (container : Option String) (w : World E)
      → (result : Option ReconcileAction) × ((reconcile_container svc i container w).0 ≡ ok result)
  unfolding get_container_status
  reconcile_container-ok i none w = (none, refl)
  reconcile_container-ok i (some id) w =
      by_status-ok (status_of (svc.inspect id w.env).0) i.status i
        (record w { env = (svc.inspect id w.env).1 })

  reconcile_each-ok :
      (instances : List Instance) (w : World E)
      → (results : List (String × ReconcileAction)) × ((reconcile_each svc instances w).0
          ≡ ok results)
  unfolding reconcile_each
  reconcile_each-ok [] w = ([], refl)
  reconcile_each-ok (i ∷ is) w =
      let (action, q) = reconcile_container-ok i (usable i.container_id) w in
      let (rs, r) = reconcile_each-ok is (reconcile_container svc i (usable i.container_id) w).1 in
      (with_action i.id action rs, rw (q, r) refl)

-- While rest-api takes the changes of rows, the loop over the rows ends, however the starts of
-- missing containers and the inspections end, with the results of the instances in order: left out
-- are the instances without a container and those of whose container Docker's state was unknown
-- when it was asked. Each reported action is true of what Docker answered then and of the row, and it
-- says what was done: a mark changed the row and was told, `restarted` is a start that returned and
-- `restart_gave_up` one that threw, and without a change nothing was done.
pub reconcile_reports :
    {E : Type 0} (svc : Services E) (instances : List Instance) (w : World E)
    → TakesChanges svc
    → (results : List (String × ReconcileAction)) × ((reconcile_each svc instances w).0
        ≡ ok results)
      × Reports svc w instances results
reconcile_reports svc instances w takes =
    let (results, h) = reconcile_each-ok svc takes instances w in
    (results, h, reconcile_each-Reports svc instances w results h)
