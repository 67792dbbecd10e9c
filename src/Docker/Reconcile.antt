-- ===== src/Docker/Reconcile.antt =====
-- src/services/docker/reconcile.ts: at boot the rows of the node are checked against Docker. The
-- pause between two starts is not modelled.
pub mod Laws
use obs_instance_manager.Prelude.{
  ℕ, String, Bool, true, false, Option, none, some, List, [], ◌∷◌, ◌++◌, any, select, not, ◌&&◌,
  if◌then◌else◌, ◌==◌,
}
use obs_instance_manager.Effects.{
  Error, Result, ok, err, Fields, InstanceStatus, creating, running, stopped, error,
  LifecycleAction, is_started, is_error, TrackedEvent, crash, auto_restarted, restart_failed,
  ReconcileAction, marked_error, marked_running, marked_stopped, restarted, restart_gave_up,
  no_change, reconcile_report, World, M, pure, try_catch, or_catch, attempt, query, perform, tell,
  track, and_then, ◌>>=◌, ◌>>◌,
}
use obs_instance_manager.Effects
use obs_instance_manager.Instances.Services.{
  Instance, Container, DockerStatus, not_found, unknown, Services, get_container_status,
  update_instance,
}
use obs_instance_manager.Instances.Services
use obs_instance_manager.Instances.Start.{usable, restart_instance}
use obs_instance_manager.Docker.Names.{is_instance_container}

abbrev pub known_container_ids : List Instance → List String
known_container_ids [] = []
known_container_ids (i ∷ is) = elim (usable i.container_id) [
  | none ↦ known_container_ids is
  | some id ↦ id ∷ known_container_ids is
]

abbrev pub ids_of : List Container → List String
ids_of [] = []
ids_of (c ∷ cs) = c.id ∷ ids_of cs

-- The instance containers that no row names.
pub orphaned_containers : List Instance → List Container → List String
orphaned_containers instances containers = ids_of (
    select
      (λ c.
        is_instance_container c.names
        && not (any (λ id. id == c.id) (known_container_ids instances)))
      containers)

abbrev pub only_status : InstanceStatus → Fields
only_status status = record { container_id = none; status = some status }

abbrev pub with_action :
    String
    → Option ReconcileAction
    → List (String × ReconcileAction)
    → List (String × ReconcileAction)
with_action id none results = results
with_action id (some action) results = (id, action) ∷ results

module _ {E : Type 0} (svc : Services E) where
  unfoldable pub resume_missing : Instance → M E ReconcileAction
  resume_missing instance =
      try_catch (do restart_instance svc instance; track instance.id auto_restarted; pure restarted)
        (λ e. do track instance.id restart_failed; pure restart_gave_up)

  unfoldable pub mark_missing : Instance → M E ReconcileAction
  mark_missing instance = do
    update_instance svc instance.id (only_status error)
    tell instance.id is_error
    track instance.id crash
    pure marked_error

  unfoldable pub mark_running : Instance → M E ReconcileAction
  mark_running instance = do
    update_instance svc instance.id (only_status running)
    tell instance.id is_started
    pure marked_running

  unfoldable pub mark_stopped : Instance → M E ReconcileAction
  mark_stopped instance = do
    update_instance svc instance.id (only_status stopped)
    tell instance.id Effects.is_stopped
    pure marked_stopped

  -- The chain of tests on what Docker and the row say.
  unfoldable pub by_status : DockerStatus → InstanceStatus → Instance → M E (Option ReconcileAction)
  by_status unknown status instance = pure none
  by_status not_found running instance = do action ← resume_missing instance; pure (some action)
  by_status not_found error instance = pure (some no_change)
  by_status not_found creating instance = do action ← mark_missing instance; pure (some action)
  by_status not_found stopped instance = do action ← mark_missing instance; pure (some action)
  by_status Services.is_running running instance = pure (some no_change)
  by_status Services.is_running status instance = do
    action ← mark_running instance
    pure (some action)
  by_status Services.is_stopped running instance = do
    action ← mark_stopped instance
    pure (some action)
  by_status Services.is_stopped status instance = pure (some no_change)

  abbrev pub reconcile_container : Instance → Option String → M E (Option ReconcileAction)
  reconcile_container instance none = pure none
  reconcile_container instance (some container_id) = do
    status ← get_container_status svc container_id
    by_status status instance.status instance

  -- The results of the loop over the instances, in order.
  unfoldable pub reconcile_each : List Instance → M E (List (String × ReconcileAction))
  reconcile_each [] = pure []
  reconcile_each (instance ∷ instances) = do
    action ← reconcile_container instance (usable instance.container_id)
    results ← reconcile_each instances
    pure (with_action instance.id action results)

  unfoldable pub report_reconcile : List String → List (String × ReconcileAction) → M E (Unit {0})
  report_reconcile orphans results =
      if svc.has_rest_api
      then attempt
          (perform (reconcile_report orphans results) (svc.post_reconcile_report orphans results))
      else pure tt

  unfoldable pub reconcile_containers : M E (Unit {0})
  reconcile_containers = do
    instances ← query svc.refresh_node_instances
    containers ← query (svc.list_containers "obs-instance-")
    results ← reconcile_each instances
    report_reconcile (orphaned_containers instances containers) results
