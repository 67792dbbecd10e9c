-- ===== src/Docker/Exits/Laws.antt =====
-- What an exit tells, and that a deliberate stop is left alone.
use obs_instance_manager.Prelude.{
  ℕ, String, Bool, ◌≡◌, ◌≢◌, refl, ap, ◌∙◌, true, false, Option, none, some, ◌∷◌, arith, eqb_iff,
  or_else, is_some, if◌then◌else◌, ◌==◌,
}
use obs_instance_manager.Effects.{
  Result, ok, err, broadcast, track_event, persist_config, patch_row_of_container, World,
  InstanceStatus, Fields, stopped, error, LifecycleAction, is_stopped, is_error, TrackedEvent,
  was_stopped, crash, attempt,
}
use obs_instance_manager.Instances.Services.{
  Instance, Services, update_instance_by_container_id, is_api_stopping,
}
use obs_instance_manager.Docker.Names.{instance_id_from_container_name}
use obs_instance_manager.Instances.Start.{usable}
use obs_instance_manager.Docker.{DockerEvent}
use obs_instance_manager.Docker.Recovery.{GpuRecovery, queue_if_gpu_correlated}
use obs_instance_manager.Docker.Exits.{
  is_clean, exit_fields, exit_status, exit_action, exit_event, exited_container,
  push_unless_restarted, push_after_exit, report_exit, after_exit, handle_container_die_event,
}

-- What an exit code means for the row, for the owner's devices and for the record.
pub data ExitMeans : Option ℕ → InstanceStatus → LifecycleAction → TrackedEvent → Type 0 where
  finished : ExitMeans (some 0) stopped is_stopped was_stopped
  terminated : ExitMeans (some 143) stopped is_stopped was_stopped
  no_code : ExitMeans none error is_error crash
  other_code : (code : ℕ) → code ≢ 0 → code ≢ 143 → ExitMeans (some code) error is_error crash

-- Whether the config is pushed, by the row that is read again: not if it has a container by then, nor
-- if it cannot be read.
abbrev pub is_pushed : Result (Option Instance) → Bool
is_pushed (err e) = false
is_pushed (ok none) = true
is_pushed (ok (some current)) = or_else current.container_id "" == ""

exited_container-stopping :
    {E : Type 0} (event : DockerEvent) (w : World E) (id : String)
    → event.id ≡ some id
    → is_api_stopping id w ≡ true
    → exited_container event w ≡ none
unfolding exited_container
exited_container-stopping event w id h q = ground (arith, h, q)

exited_container-exited :
    {E : Type 0} (event : DockerEvent) (w : World E) (id : String)
    → event.action ≡ "die"
    → is_some (instance_id_from_container_name (or_else event.name "")) ≡ true
    → event.id ≡ some id
    → (id == "") ≡ false
    → is_api_stopping id w ≡ false
    → exited_container event w ≡ some id
unfolding exited_container
exited_container-exited event w id die named here full free = rw (die, named, here, full, free) refl

module _ {E : Type 0} (svc : Services E) where
  -- The exit of a container that an API route is stopping changes nothing: no row, no event, no
  -- config, no queue.
  api_stop_ignored :
      (now : ℕ) (event : DockerEvent) (g : GpuRecovery) (w : World E) (id : String)
      → event.id ≡ some id
      → is_api_stopping id w ≡ true
      → handle_container_die_event svc now event g w ≡ ((ok tt, w), g)
  unfolding handle_container_die_event
  api_stop_ignored now event g w id h q =
      rw (exited_container-stopping event w id h q, handle_container_die_event) refl

  restarted-trace :
      (updated : Instance) (container_id : Option String) (w : World E)
      → (push_unless_restarted svc updated (usable container_id) w).1.trace ≡ (
          if or_else container_id "" == ""
          then persist_config updated.user_id updated.id ∷ w.trace
          else w.trace)
  restarted-trace updated none w = ground arith
  restarted-trace updated (some id) w = ground arith

  push_after_exit-trace :
      (updated : Instance) (w : World E)
      → (attempt (push_after_exit svc updated) w).1.trace ≡ (
          if is_pushed (svc.get_row updated.id w.env).0
          then persist_config updated.user_id updated.id ∷ w.trace
          else w.trace)
  unfolding push_after_exit
  push_after_exit-trace updated w = pushed (svc.get_row updated.id w.env).0 refl
    where
      pushed :
          (answer : Result (Option Instance))
          → (svc.get_row updated.id w.env).0 ≡ answer
          → (attempt (push_after_exit svc updated) w).1.trace ≡ (
              if is_pushed answer
              then persist_config updated.user_id updated.id ∷ w.trace
              else w.trace)
      pushed (err x) e = ground (arith, e)
      pushed (ok none) e = ground (arith, e)
      pushed (ok (some current)) e =
          rw (push_after_exit, e) (restarted-trace updated current.container_id _)

  module _ (now : ℕ) (event : DockerEvent) (g : GpuRecovery) (w : World E) (id : String)
      (updated : Instance) where
    -- What an exit with this meaning has done.
    abbrev pub Done : InstanceStatus → LifecycleAction → TrackedEvent → Type 0
    Done status action tracked =
        let fields : Fields = record { container_id = some none; status = some status } in
        let env' = (svc.patch_by_container id fields w.env).1 in
        let told =
          track_event updated.id tracked
          ∷ broadcast updated.id action
          ∷ patch_row_of_container id fields
          ∷ w.trace in
        let ((r, w'), g') = handle_container_die_event svc now event g w in
        (r ≡ ok tt)
        × (w'.trace ≡ (
            if is_pushed (svc.get_row updated.id env').0
            then persist_config updated.user_id updated.id ∷ told
            else told))
        × (tracked ≡ was_stopped → g' ≡ g)
        × (tracked ≡ crash → g' ≡ (queue_if_gpu_correlated now updated.id updated.node_id g).1)

    done_lem :
        (clean : Bool)
        → exited_container event w ≡ some id
        → is_clean event.exit_code ≡ clean
        → (svc.patch_by_container id (exit_fields clean) w.env).0 ≡ ok (some updated)
        → Done (exit_status clean) (exit_action clean) (exit_event clean)
    unfolding handle_container_die_event update_instance_by_container_id after_exit report_exit
    done_lem true h c q =
        rw (h, handle_container_die_event, c, q)
          (refl, push_after_exit-trace updated _, (λ e. refl), (λ e. cc))
    done_lem false h c q =
        rw (h, handle_container_die_event, c, q)
          (refl, push_after_exit-trace updated _, (λ e. cc), (λ e. refl))

    meant :
        {code : Option ℕ} {status : InstanceStatus} {action : LifecycleAction}
        {tracked : TrackedEvent}
        → ExitMeans code status action tracked
        → exited_container event w ≡ some id
        → event.exit_code ≡ code
        → (svc.patch_by_container id
            (record { container_id = some none; status = some status })
            w.env).0
          ≡ ok (some updated)
        → Done status action tracked
    meant finished h c q = done_lem true h (ap is_clean c) q
    meant terminated h c q = done_lem true h (ap is_clean c) q
    meant no_code h c q = done_lem false h (ap is_clean c) q
    meant (other_code code n m) h c q =
        done_lem false h (ap is_clean c ∙ ground (arith, n, m, eqb_iff code 0, eqb_iff code 143)) q

  -- The exit of an instance's container that no API route is stopping and that a row names. For the
  -- codes 0 and 143 the row becomes `stopped`, for any other code and for none `error`, in both cases
  -- with no container; then the same is told to the owner and recorded, once each. The config is
  -- pushed unless the row, read again, has a container or cannot be read. A crash is handed to the
  -- recovery queue, a stop is not, and the handler does not throw.
  pub exit_trace :
      (now : ℕ) (event : DockerEvent) (g : GpuRecovery) (w : World E) (id : String)
      (updated : Instance) (status : InstanceStatus) (action : LifecycleAction)
      (tracked : TrackedEvent)
      → event.action ≡ "die"
      → is_some (instance_id_from_container_name (or_else event.name "")) ≡ true
      → event.id ≡ some id
      → (id == "") ≡ false
      → is_api_stopping id w ≡ false
      → ExitMeans event.exit_code status action tracked
      → (svc.patch_by_container id
          (record { container_id = some none; status = some status })
          w.env).0
        ≡ ok (some updated)
      → Done now event g w id updated status action tracked
  exit_trace now event g w id updated status action tracked die named here full free means q =
      meant now event g w id updated means
        (exited_container-exited event w id die named here full free) refl q
