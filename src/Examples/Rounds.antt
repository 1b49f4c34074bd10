-- ===== src/Examples/Rounds.antt =====
-- The rounds of the scheduler thread, and the start of the worker, at concrete inputs.
use worker_unit.Base.{ℕ, ◌≡◌, ◌≤◌, ◌<◌, refl, false, none, some, [], ◌∷◌, arith, length, get_elem?}
use worker_unit.Base.Int.{pos}
use worker_unit.Scheduler.Job.{QueueJob, no_status, high_priority, bit_set, is_job_status_set}
use worker_unit.Scheduler.ThreadQueue.{ThreadQueue, new_thread_queue, scan, get_next_task}
use worker_unit.Scheduler.ThreadQueue.Usable.{Usable}
use worker_unit.Scheduler.TaskPool.{TaskData}
use worker_unit.Scheduler.Balance.{sched_round}
use worker_unit.Scheduler.Balance.HandOut.{Handed}
use worker_unit.Scheduler.Balance.Rounds.{sched_round-Handed}
use worker_unit.Scheduler.Balance.Moves.{Ready}
use worker_unit.Scheduler.Balance.Theft.{Stolen, move_jobs-Stolen}
use worker_unit.Scheduler.ThreadQueue.Single.{free_slot, occupied, Unmarked}
use worker_unit.Start.{start}
use worker_unit.Start.Threads.{start-asked}

abbrev free_queue : ℕ → ThreadQueue
free_queue id = record {
  thread_id = id;
  head = 0;
  slots = free_slot ∷ free_slot ∷ free_slot ∷ free_slot ∷ [];
  thread_should_stop = false;
  total_jobs_in_queue = 0;
}

free_queue-Usable : (id : ℕ) → Usable (free_queue id)
free_queue-Usable id = record {
  valid = record { four = refl; head_in = omega arith; counted = refl; holds = refl };
  unsliced = refl;
  written = refl;
}

abbrev task : TaskData
task = record {
  proc_table = record {
    address = 0;
    pid = 9;
    process_type = 2;
    job_status = no_status;
    priority = high_priority;
    freed = false;
  };
  pool_priority = high_priority;
  starve_counter = 0;
}

sched_round-Handed_example :
    Handed
      (task ∷ [])
      (free_queue 0 ∷ free_queue 1 ∷ [])
      (sched_round (task ∷ []) (free_queue 0 ∷ free_queue 1 ∷ []))
sched_round-Handed_example =
    sched_round-Handed (task ∷ []) (free_queue 0 ∷ free_queue 1 ∷ []) (omega arith, tt)
      (free_queue-Usable 0, (free_queue-Usable 1, tt))

abbrev waiting_job : QueueJob
waiting_job = record { cpu_slice_ms = 0; process_table = task.proc_table; job_error_handle = false }

-- The queue of a thread with two jobs, of which the second one is next.
abbrev other_job : QueueJob
other_job = record waiting_job { process_table = record task.proc_table { address = 1; pid = 8 } }

abbrev two_waiting : ThreadQueue
two_waiting = record (free_queue 1) {
  head = 3;
  slots = occupied waiting_job ∷ occupied other_job ∷ free_slot ∷ free_slot ∷ [];
  total_jobs_in_queue = 2;
}

two_waiting-Ready : Ready (free_queue 0) two_waiting
two_waiting-Ready = record {
  idle_valid = (free_queue-Usable 0).valid;
  busy_valid = record { four = refl; head_in = omega arith; counted = refl; holds = refl };
  idle_unsliced = refl;
  busy_unsliced = refl;
}

first_next : (get_next_task two_waiting).1.head ≡ 0
unfolding get_next_task scan
first_next = refl

waiting_job-Unmarked : Unmarked waiting_job
unfolding is_job_status_set bit_set
waiting_job-Unmarked = (refl, refl)

move_jobs-Stolen_example : Stolen waiting_job (free_queue 0) two_waiting
move_jobs-Stolen_example =
    move_jobs-Stolen waiting_job [] (occupied other_job ∷ free_slot ∷ free_slot ∷ []) (free_queue 0)
      two_waiting two_waiting-Ready refl refl first_next refl tt waiting_job-Unmarked

start-asked_example :
    let s = start [] [] (pos 12) in
    (length s.thread_queues ≡ 12)
    × ((k : ℕ) → k < 12 → get_elem? s.thread_queues k ≡ some (new_thread_queue k))
    × (s.stats.thread_count ≡ 2)
    × (s.stats.thread_count ≤ 10)
    × (sched_round (task ∷ []) s.thread_queues ≡ none)
start-asked_example = start-asked [] [] (pos 12) (task ∷ [])
