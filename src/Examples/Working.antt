-- ===== src/Examples/Working.antt =====
-- The task threads at concrete inputs.
use worker_unit.Base.{◌≡◌, refl, true, false, some, [], ◌∷◌, arith, ◌≢◌, ◌||◌}
use worker_unit.Scheduler.Job.{
  QueueJob, no_status, job_done, job_pending, job_failed, is_job_status_set, bit_set,
}
use worker_unit.Scheduler.ThreadQueue.{ThreadQueue}
use worker_unit.Scheduler.ThreadQueue.Invariant.{IsValid}
use worker_unit.Scheduler.Registry.{registered}
use worker_unit.Scheduler.Worker.{JobTimer, Round, Leave, run_rounds, thread_turn, finish_job}
use worker_unit.Scheduler.Worker.Finish.{Finished, finish_job-Finished}
use worker_unit.Scheduler.Worker.Turns.{OnlyStarts, run_rounds-OnlyStarts}
use worker_unit.Scheduler.Worker.Outcome.{starts, run_rounds_done}
use worker_unit.Scheduler.Worker.Failing.{all_failing, Kept, failing_turn}
use worker_unit.Examples.Scheduling.{table, first, two_jobs, manager}

abbrev timer : JobTimer
timer = record { allowed_cpu_slice = 0; job_should_pause = false }

abbrev pends : Round
pends = record { result = job_pending; expired = true }

abbrev ends : Round
ends = record { result = job_done; expired = false }

abbrev fails : Round
fails = record { result = job_failed; expired = false }

run_rounds-OnlyStarts_example : OnlyStarts (run_rounds timer first (pends ∷ ends ∷ []))
run_rounds-OnlyStarts_example = run_rounds-OnlyStarts timer first (pends ∷ ends ∷ []) refl

abbrev pending_job : QueueJob
pending_job = record first {
  process_table = record table { job_status = record no_status { pending = true } };
}

pending_job_pending : is_job_status_set job_pending pending_job ≡ true
unfolding is_job_status_set bit_set
pending_job_pending = refl

pending_job_done : is_job_status_set job_done pending_job ≡ false
unfolding is_job_status_set bit_set
pending_job_done = refl

first_done : is_job_status_set job_done first ≡ false
unfolding is_job_status_set bit_set
first_done = refl

two_jobs-failing : all_failing two_jobs.slots ≡ true
unfolding is_job_status_set bit_set
two_jobs-failing = refl

failed≢done : job_failed ≢ job_done
failed≢done h = cc

pending≢done : job_pending ≢ job_done
pending≢done h = cc

run_rounds_done_example :
    (l : Leave) × (run_rounds timer first (pends ∷ ends ∷ fails ∷ []) ≡ some l)
    × (l.calls ≡ starts 2)
    × (l.unused ≡ fails ∷ [])
    × (is_job_status_set job_done l.left ≡ true)
    × (l.left.job_error_handle ≡ (is_job_status_set job_failed first || false))
run_rounds_done_example =
    run_rounds_done timer first (pends ∷ []) ends (fails ∷ []) refl first_done (refl, tt) refl

failing_turn_example : Kept two_jobs manager (thread_turn two_jobs manager (fails ∷ []))
failing_turn_example = failing_turn two_jobs manager fails [] (omega arith) two_jobs-failing refl

-- The same queue when its first job comes up.
abbrev first_up : ThreadQueue
first_up = record two_jobs { head = 0 }

first_up-IsValid : IsValid first_up
first_up-IsValid = record { four = refl; head_in = omega arith; counted = refl; holds = refl }

manager_registered : registered 1 manager.pid_vector ≡ true
unfolding registered
manager_registered = refl

finish_job-Finished_example : Finished first first_up manager (finish_job first first_up manager)
finish_job-Finished_example =
    finish_job-Finished first first_up manager first_up-IsValid refl manager_registered
