-- ===== src/Instances/Stop.antt =====
-- src/services/instances/stop-instance.ts, destroy-instance.ts and plan-sweep.ts. A stop and a
-- delete run under the instance's lock (Lock.antt).
pub mod Laws
use obs_instance_manager.Prelude.{
  ℕ, String, Bool, true, false, Option, none, some, List, [], ◌∷◌, ◌++◌, if◌then◌else◌,
}
use obs_instance_manager.Effects.{
  Error, Result, ok, err, Fields, World, M, InstanceStatus, running, stopped, is_stopping,
  is_stopped, stop_container, remove_container, clear_stream_key, persist_config,
  remove_local_config, remove_s3_config, pure, throw, try_catch, or_catch, finally, attempt, query,
  perform, tell, modify, and_then, ◌>>=◌, ◌>>◌,
}
use obs_instance_manager.Instances.Services.{
  Instance, Services, update_instance, delete_instance, mark_api_stopping, clear_api_stopping,
}
use obs_instance_manager.Instances.Start.{usable}

abbrev pub set_stopped : Fields
set_stopped = record { container_id = some none; status = some stopped }

abbrev pub is_running_status : InstanceStatus → Bool
is_running_status running = true
is_running_status _ = false

module _ {E : Type 0} (svc : Services E) where
  -- The `try` of `stopInstance`.
  unfoldable pub stop_steps : Instance → String → M E Instance
  stop_steps instance container_id = do
    perform (stop_container container_id) (svc.stop container_id)
    attempt (perform (clear_stream_key instance.id) (svc.clear_stream_key instance.id))
    perform (persist_config instance.user_id instance.id)
        (svc.persist_and_remove instance.user_id instance.id)
    attempt (perform (remove_container container_id) (svc.remove container_id))
    result ← update_instance svc instance.id set_stopped
    tell instance.id is_stopped
    pure result

  -- The caller has checked that the instance has this container.
  unfoldable pub stop_instance : Instance → String → M E Instance
  stop_instance instance container_id = do
    modify (mark_api_stopping container_id)
    tell instance.id is_stopping
    finally (stop_steps instance container_id) (clear_api_stopping container_id)

  unfoldable pub tear_down : Instance → String → M E (Unit {0})
  tear_down instance container_id = do
    attempt (perform (stop_container container_id) (svc.stop container_id))
    attempt (perform (remove_local_config instance.id) (svc.remove_local instance.id))
    attempt (perform (remove_container container_id) (svc.remove container_id))

  unfoldable pub clear_container : Instance → Option String → M E (Unit {0})
  clear_container instance none = pure tt
  clear_container instance (some container_id) = do
    modify (mark_api_stopping container_id)
    finally (tear_down instance container_id) (clear_api_stopping container_id)

  unfoldable pub destroy_instance : Instance → M E (Unit {0})
  destroy_instance instance = do
    clear_container instance (usable instance.container_id)
    attempt (
        perform (remove_s3_config instance.user_id instance.id)
          (svc.remove_s3 instance.user_id instance.id))
    delete_instance svc instance.id

  -- Whether the sweep stopped the instance of this row.
  unfoldable pub stop_if_running : Option Instance → M E Bool
  stop_if_running none = pure false
  stop_if_running (some instance) = elim (usable instance.container_id) [
    | none ↦ pure false
    | some container_id ↦
        if is_running_status instance.status
        then (do stop_instance instance container_id; pure true)
        else pure false
  ]

  -- One round of the sweep, its `catch` included.
  unfoldable pub sweep_one : String → M E Bool
  sweep_one id = try_catch (do row ← query (svc.get_row id); stop_if_running row) (λ e. pure false)

  unfoldable pub skip_locked : String → Bool → M E Bool
  skip_locked id true = pure false
  skip_locked id false = sweep_one id

  unfoldable pub sweep_each : List String → List String → M E (List String)
  sweep_each [] done = pure done
  sweep_each (id ∷ ids) done = do
    was_stopped ← λ w. skip_locked id (svc.is_locked id w.env) w
    sweep_each ids (if was_stopped then done ++ id ∷ [] else done)

  unfoldable pub sweep_unentitled_instances : M E (List String)
  sweep_unentitled_instances = do ids ← query svc.list_unentitled; sweep_each ids []
