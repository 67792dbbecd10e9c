-- ===== src/Lock/Tests.antt =====
-- The lock at work: two calls for one instance, the first of which runs.
use obs_instance_manager.Prelude.{ℕ, ◌≡◌, refl, none, some, arith}
use obs_instance_manager.Prelude.Dict
use obs_instance_manager.Lock.{
  Phase, waiting, running, settled, Job, Locks, idle, with_instance_lock, with_phase, call, start,
  settle, Reach, here, next,
}
use obs_instance_manager.Lock.Exclusion.{exclusion, fifo, progress, CanProgress}

abbrev first_job : Phase → Job
first_job p = record { instance_id = "a"; previous = none; phase = p }

abbrev second_job : Phase → Job
second_job p = record { instance_id = "a"; previous = some 0; phase = p }

abbrev two_calls : Locks
two_calls = with_instance_lock "a" (with_instance_lock "a" idle)

abbrev one_runs : Locks
one_runs = with_phase 0 (first_job waiting) running two_calls

abbrev one_done : Locks
one_done = with_phase 0 (first_job running) settled one_runs

abbrev other_runs : Locks
other_runs = with_phase 1 (second_job waiting) running one_done

abbrev other_done : Locks
other_done = with_phase 1 (second_job running) settled other_runs

Reach-one_runs : Reach one_runs
unfolding with_instance_lock with_phase Dict.get Dict.set
Reach-one_runs =
    next (next (next here (call "a" refl)) (call "a" refl))
      (start 0 (first_job waiting) refl refl tt refl)

Reach-other_runs : Reach other_runs
unfolding with_instance_lock with_phase Dict.get Dict.set
Reach-other_runs =
    next (next Reach-one_runs (settle 0 (first_job running) refl refl refl))
      (start 1 (second_job waiting) refl refl (first_job settled, refl, refl) refl)

Reach-other_done : Reach other_done
unfolding with_instance_lock with_phase Dict.get Dict.set
Reach-other_done = next Reach-other_runs (settle 1 (second_job running) refl refl refl)

exclusion_example : ◌≡◌ {A = ℕ} 0 0
unfolding with_instance_lock with_phase Dict.get Dict.set
exclusion_example =
    exclusion 0 0 (first_job running) (first_job running) Reach-one_runs refl refl refl refl refl

fifo_example : ◌≡◌ {A = Phase} settled settled
unfolding with_instance_lock with_phase Dict.get Dict.set
fifo_example =
    fifo 0 1 (first_job settled) (second_job running) Reach-other_runs (omega arith) refl refl refl
      (λ e. cc)

progress_example : CanProgress one_runs "a"
unfolding with_instance_lock with_phase Dict.get Dict.set
progress_example = progress 1 (second_job waiting) Reach-one_runs refl (λ e. cc)
