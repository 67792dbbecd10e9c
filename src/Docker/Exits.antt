-- ===== src/Docker/Exits.antt =====
-- src/services/docker/event-listener.ts: what a container's exit outside the API does to its row,
-- the recovery queue and the config in S3. The push after the exit runs under the instance's lock.
pub mod Laws
use obs_instance_manager.Prelude.{
  ℕ, String, Bool, true, false, Option, none, some, eqb, ◌||◌, ◌&&◌, not, if◌then◌else◌, ◌==◌,
  or_else, is_some,
}
use obs_instance_manager.Effects.{
  Error, Result, ok, err, Fields, InstanceStatus, stopped, error, LifecycleAction, is_error,
  is_stopped, TrackedEvent, crash, was_stopped, persist_config, World, M, pure, try_catch, or_catch,
  attempt, query, perform, tell, track, and_then, ◌>>=◌, ◌>>◌,
}
use obs_instance_manager.Instances.Services.{
  Instance, Services, update_instance_by_container_id, is_api_stopping,
}
use obs_instance_manager.Instances.Start.{usable}
use obs_instance_manager.Docker.{DockerEvent}
use obs_instance_manager.Docker.Names.{instance_id_from_container_name}
use obs_instance_manager.Docker.Recovery.{GpuRecovery, queue_if_gpu_correlated}

-- An exit code of 0 or 143 (SIGTERM) is a normal stop; a missing code counts as -1.
abbrev pub is_clean : Option ℕ → Bool
is_clean none = false
is_clean (some code) = eqb code 0 || eqb code 143

abbrev pub exit_status : Bool → InstanceStatus
exit_status true = stopped
exit_status false = error

abbrev pub exit_fields : Bool → Fields
exit_fields clean = record { container_id = some none; status = some (exit_status clean) }

abbrev pub exit_action : Bool → LifecycleAction
exit_action true = is_stopped
exit_action false = is_error

abbrev pub exit_event : Bool → TrackedEvent
exit_event true = was_stopped
exit_event false = crash

-- The container whose exit the handler deals with: not that of an event of another kind or of
-- another container, nor one that an API route is stopping.
unfoldable pub exited_container : {E : Type 0} → DockerEvent → World E → Option String
exited_container event w =
    if not (event.action == "die")
    then none
    else if not (is_some (instance_id_from_container_name (or_else event.name "")))
    then none
    else elim (usable event.id) [
      | none ↦ none
      | some id ↦ if is_api_stopping id w then none else some id
    ]

module _ {E : Type 0} (svc : Services E) where
  abbrev pub push_unless_restarted : Instance → Option String → M E (Unit {0})
  push_unless_restarted updated (some container_id) = pure tt
  push_unless_restarted updated none = do
    perform (persist_config updated.user_id updated.id)
        (svc.persist_and_remove updated.user_id updated.id)
    pure tt

  abbrev pub container_of : Option Instance → Option String
  container_of none = none
  container_of (some current) = usable current.container_id

  -- The function under the lock.
  unfoldable pub push_after_exit : Instance → M E (Unit {0})
  push_after_exit updated = do
    current ← query (svc.get_row updated.id)
    push_unless_restarted updated (container_of current)

  unfoldable pub report_exit : Bool → Instance → M E (Unit {0})
  report_exit clean updated = do
    tell updated.id (exit_action clean)
    track updated.id (exit_event clean)
    attempt (push_after_exit updated)

  abbrev pub queue_crash : ℕ → Bool → Instance → GpuRecovery → GpuRecovery
  queue_crash now true updated g = g
  queue_crash now false updated g = (queue_if_gpu_correlated now updated.id updated.node_id g).1

  -- What follows the change of the row.
  unfoldable pub after_exit :
      ℕ
      → Bool
      → Result (Option Instance)
      → GpuRecovery
      → World E
      → (Result (Unit {0}) × World E) × GpuRecovery
  after_exit now clean (err e) g w = ((err e, w), g)
  after_exit now clean (ok none) g w = ((ok tt, w), g)
  after_exit now clean (ok (some updated)) g w =
      (report_exit clean updated w, queue_crash now clean updated g)

  unfoldable pub handle_container_die_event :
      ℕ → DockerEvent → GpuRecovery → World E → (Result (Unit {0}) × World E) × GpuRecovery
  handle_container_die_event now event g w = elim (exited_container event w) [
    | none ↦ ((ok tt, w), g)
    | some id ↦
        let clean = is_clean event.exit_code in
        let (updated, w') = update_instance_by_container_id svc id (exit_fields clean) w in
        after_exit now clean updated g w'
  ]

-- What the scene watch does for an event of the stream: it starts or ends the listener of an
-- instance, whoever ended its container.
pub data SceneWatch : Type 0 where
  ignores : SceneWatch
  detaches : String → SceneWatch
  attaches : Instance → SceneWatch

abbrev pub attach_found : Result (Option Instance) → Result SceneWatch
attach_found (err e) = err e
attach_found (ok none) = ok ignores
attach_found (ok (some instance)) = ok (attaches instance)

module _ {E : Type 0} (svc : Services E) where
  abbrev pub watch_instance : String → Option String → World E → Result SceneWatch × World E
  watch_instance action none w = (ok ignores, w)
  watch_instance action (some id) w =
      if action == "die"
      then (ok (detaches id), w)
      else (let (found, w') = query (svc.get_row id) w in (attach_found found, w'))

  unfoldable pub handle_obs_scene_watch_event : DockerEvent → World E → Result SceneWatch × World E
  handle_obs_scene_watch_event event w =
      if not (event.action == "start") && not (event.action == "die")
      then (ok ignores, w)
      else watch_instance event.action (instance_id_from_container_name (or_else event.name "")) w
