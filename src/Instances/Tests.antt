-- ===== src/Instances/Tests.antt =====
-- Instances at work, with systems outside that answer, and with some that do not.
use obs_instance_manager.Prelude.{◌≡◌, refl, none, some, [], ◌∷◌}
use obs_instance_manager.Effects.{remove_container, is_starting}
use obs_instance_manager.Instances.Services.{exact_match, find_container_by_name, update_instance}
use obs_instance_manager.Instances.Start.{
  require_stream_key, load_start_secrets, start_fresh, launch, restart_instance, run_created,
  start_and_record, clean_up, settle_failure, find_survivor, after_failure, give_up,
}
use obs_instance_manager.Instances.Start.Signals.{signals, IsErr, is_up, Told, restart_signals}
use obs_instance_manager.Instances.Start.Failures.{
  Has, launch_removes_orphan, row_changes, starting_without_end,
}
use obs_instance_manager.Instances.Samples.{row, healthy, world, secrets, no_start, no_disk}

restart_signals_example :
    Told healthy row
      (is_up (find_container_by_name healthy row.container_name world).0)
      []
      (restart_instance healthy row world)
restart_signals_example = restart_signals healthy row world

launch_removes_orphan_example :
    Has (remove_container "c2") (launch no_start row secrets world).1.trace
unfolding launch run_created start_and_record clean_up settle_failure find_survivor
    find_container_by_name exact_match after_failure give_up update_instance
launch_removes_orphan_example = launch_removes_orphan no_start row secrets world "c2" refl tt

starting_without_end_example :
    IsErr (start_fresh no_disk row none world).0
    × (signals (start_fresh no_disk row none world).1.trace ≡ ("i1", is_starting) ∷ [])
    × (row_changes (start_fresh no_disk row none world).1.trace ≡ [])
unfolding load_start_secrets require_stream_key
starting_without_end_example =
    starting_without_end no_disk row none world secrets (some "live") (λ id password n. tt) refl
      refl
