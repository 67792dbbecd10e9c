-- ===== src/Docker/Recovery.antt =====
-- src/services/docker/gpu-recovery.ts: instances that crash because the shared X server went down
-- are started again when it is back. The pause between two starts and the grace before the pass are
-- not modelled; the pass takes the queue as it stands when its timer fires.
pub mod Laws
use obs_instance_manager.Prelude.{
  ℕ, ◌+◌, String, Bool, true, false, Option, none, some, List, [], ◌∷◌, leb, if◌then◌else◌, ◌==◌,
  not, or_else,
}
use obs_instance_manager.Prelude.Dict
use obs_instance_manager.Prelude.Dict.{Dict}
use obs_instance_manager.Effects.{
  Error, Result, ok, err, World, M, auto_restarted, restart_failed, pure, throw, try_catch,
  or_catch, query, track, and_then, ◌>>=◌, ◌>>◌,
}
use obs_instance_manager.Instances.Services.{Instance, Services, strip_slash}
use obs_instance_manager.Instances.Start.{restart_instance}
use obs_instance_manager.Instances.Stop.{is_running_status}
use obs_instance_manager.Docker.{DockerEvent}

abbrev pub die_correlation_window_ms : ℕ
die_correlation_window_ms = 15000

pub record GpuRecovery : Type 0 where
  pub down_since : Option ℕ
  -- instance id to node id
  pub pending : Dict String

-- `now - since <= window`
abbrev pub is_correlated : ℕ → GpuRecovery → Bool
is_correlated now g = elim g.down_since [
  | none ↦ false
  | some since ↦ leb now (since + die_correlation_window_ms)
]

pub queue_if_gpu_correlated : ℕ → String → String → GpuRecovery → Bool × GpuRecovery
queue_if_gpu_correlated now id node_id g =
    if is_correlated now g
    then (true, record g { pending = Dict.set g.pending id node_id })
    else (false, g)

-- Whether a recovery pass is scheduled, and the state.
pub handle_gpu_xserver_event : ℕ → DockerEvent → GpuRecovery → Bool × GpuRecovery
handle_gpu_xserver_event now event g =
    if not (strip_slash (or_else event.name "") == "gpu-xserver")
    then (false, g)
    else if event.action == "die"
    then (false, record g { down_since = some now })
    else if not (event.action == "start")
    then (false, g)
    else (true, record g { down_since = none })

module _ {E : Type 0} (svc : Services E) where
  -- The `try` and its `catch` on one instance.
  unfoldable pub resume_crashed : Instance → M E (Unit {0})
  resume_crashed instance =
      try_catch (do restart_instance svc instance; track instance.id auto_restarted)
        (λ e. track instance.id restart_failed)

  abbrev pub resume_if_down : Option Instance → M E (Unit {0})
  resume_if_down none = pure tt
  resume_if_down (some instance) =
      if is_running_status instance.status then pure tt else resume_crashed instance

  unfoldable pub recover_each : List String → M E (Unit {0})
  recover_each [] = pure tt
  recover_each (id ∷ ids) = do
    instance ← query (svc.get_row id)
    resume_if_down instance
    recover_each ids

  -- The queue is emptied before the first lookup.
  unfoldable pub recover_instances :
      GpuRecovery → World E → (Result (Unit {0}) × World E) × GpuRecovery
  recover_instances g w = (recover_each (Dict.keys g.pending) w, record g { pending = Dict.empty })
