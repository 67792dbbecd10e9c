-- ===== src/Docker/Tests.antt =====
-- Exits, recovery and reconcile at work on the sample row.
use obs_instance_manager.Prelude.{
  ℕ, String, arith, ◌≡◌, refl, true, some, List, [], ◌∷◌, strip_prefix,
}
use obs_instance_manager.Prelude.Dict
use obs_instance_manager.Effects.{ok, error, is_error, crash, World, ReconcileAction}
use obs_instance_manager.Instances.Services.{Services, strip_slash}
use obs_instance_manager.Instances.Samples.{row, healthy, no_start, world, fails}
use obs_instance_manager.Docker.{DockerEvent}
use obs_instance_manager.Docker.Names.{
  hex_run, are_runs, is_uuid, strip_prefix_any_case, instance_id_from_container_name,
}
use obs_instance_manager.Docker.Recovery.{GpuRecovery}
use obs_instance_manager.Docker.Exits.{exited_container}
use obs_instance_manager.Docker.Exits.Laws.{other_code, Done, exit_trace}
use obs_instance_manager.Docker.Reconcile.{reconcile_each}
use obs_instance_manager.Docker.Reconcile.Laws.{Reports, reconcile_reports}

abbrev uuid : String
uuid = "0a1b2c3d-0000-4000-8000-00000000000f"

abbrev exit : DockerEvent
exit = record {
  action = "die";
  name = some "obs-instance-0a1b2c3d-0000-4000-8000-00000000000f";
  id = some "c1";
  exit_code = some 139;
}

abbrev down : GpuRecovery
down = record { down_since = some 1000; pending = ("i1", "n1") ∷ [] }

abbrev stopping : World ℕ
stopping = record world { api_stopping = ("c1", true) ∷ [] }

abbrev no_lookup : Services ℕ
no_lookup = record healthy { get_row = λ id. fails }

exit_trace_example : Done healthy 2000 exit down world "c1" row error is_error crash
unfolding exited_container instance_id_from_container_name strip_prefix_any_case strip_slash is_uuid
    are_runs hex_run strip_prefix Dict.get
exit_trace_example =
    exit_trace healthy 2000 exit down world "c1" row error is_error crash refl refl refl refl refl
      (other_code 139 (λ e. ground arith) (λ e. ground arith)) refl

reconcile_reports_example :
    (results : List (String × ReconcileAction)) × ((reconcile_each no_start (row ∷ []) world).0
      ≡ ok results)
    × Reports no_start world (row ∷ []) results
reconcile_reports_example = reconcile_reports no_start (row ∷ []) world (λ id fields n. tt)
