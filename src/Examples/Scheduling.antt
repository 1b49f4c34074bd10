-- ===== src/Examples/Scheduling.antt =====
-- The scheduler at concrete inputs.
use worker_unit.Base.{◌≡◌, ◌<◌, refl, true, false, some, List, [], ◌∷◌, arith, ◌⊎◌}
use worker_unit.Scheduler.Job.{
  ProcessTable, QueueJob, no_status, high_priority, low_priority, medium_priority,
}
use worker_unit.Scheduler.ThreadQueue.{
  ThreadQueue, unset, null, job, add_new_task, pop_job, get_next_task, slot_at,
}
use worker_unit.Scheduler.ThreadQueue.Invariant.{
  IsValid, Added, add_new_task-Added, Popped, pop_job-Popped,
}
use worker_unit.Scheduler.ThreadQueue.Rotation.{Occupied, distance, get_next_task_approaches}
use worker_unit.Scheduler.Registry.{
  ProcessManager, Below, register_process, unregister_process, unregister-register,
}
use worker_unit.Scheduler.TaskPool.{
  TaskData, ProcessStates, Scheduling, push_task, get_scheduled_task, schedule_task,
}
use worker_unit.Scheduler.TaskPool.Oldest.{push_all, Oldest, get_scheduled_task-Oldest}
use worker_unit.Scheduler.TaskPool.Order.{IsSorted, waiting, waiting-push_task}
use worker_unit.Scheduler.TaskPool.Schedule.{Scheduled, schedule_task-Scheduled}
use worker_unit.Scheduler.Balance.{move_jobs}
use worker_unit.Scheduler.Balance.Moves.{Moved, move_jobs-Moved}

abbrev pub table : ProcessTable
table = record {
  address = 1;
  pid = 7;
  process_type = 2;
  job_status = no_status;
  priority = high_priority;
  freed = false;
}

abbrev pub first : QueueJob
first = record { cpu_slice_ms = 0; process_table = table; job_error_handle = false }

abbrev second : QueueJob
second = record first { process_table = record table { address = 2; pid = 8 } }

-- A queue of two jobs, with two free slots.
abbrev pub two_jobs : ThreadQueue
two_jobs = record {
  thread_id = 0;
  head = 3;
  slots =
      record { is_done = false; cell = job first }
      ∷ record { is_done = false; cell = job second }
      ∷ record { is_done = true; cell = null }
      ∷ record { is_done = true; cell = unset }
      ∷ [];
  thread_should_stop = false;
  total_jobs_in_queue = 2;
}

abbrev no_jobs : ThreadQueue
no_jobs = record {
  thread_id = 1;
  head = 3;
  slots =
      record { is_done = true; cell = unset }
      ∷ record { is_done = true; cell = unset }
      ∷ record { is_done = true; cell = null }
      ∷ record { is_done = true; cell = unset }
      ∷ [];
  thread_should_stop = false;
  total_jobs_in_queue = 0;
}

two_jobs-IsValid : IsValid two_jobs
two_jobs-IsValid = record { four = refl; head_in = omega arith; counted = refl; holds = refl }

no_jobs-IsValid : IsValid no_jobs
no_jobs-IsValid = record { four = refl; head_in = omega arith; counted = refl; holds = refl }

add_new_task-Added_example : Added second two_jobs (add_new_task (job second) two_jobs)
add_new_task-Added_example = add_new_task-Added second two_jobs two_jobs-IsValid

pop_job-Popped_example : Popped two_jobs (pop_job two_jobs)
pop_job-Popped_example = pop_job-Popped two_jobs two_jobs-IsValid

get_next_task_approaches_example :
    let (c, r) = get_next_task two_jobs in
    (r.slots ≡ two_jobs.slots)
    × (c ≡ (slot_at two_jobs.slots r.head).cell)
    × Occupied two_jobs.slots r.head
    × (distance 3 1 < 4)
    × ((r.head ≡ 1) ⊎ (distance r.head 1 < distance 3 1))
get_next_task_approaches_example =
    get_next_task_approaches two_jobs 1 (omega arith) (omega arith) refl

abbrev pub manager : ProcessManager
manager = record { pid_vector = record { address = 1; pid = 7 } ∷ []; heap_top = 5 }

manager-Below : Below manager
manager-Below = (omega arith, tt)

unregister-register_example :
    let (t, m') = register_process 99 (7 ∷ 8 ∷ []) manager in
    let (t', m'') = unregister_process t m' in
    (t.pid ≡ 99) × (t.freed ≡ false) × (t'.freed ≡ true) × (m''.pid_vector ≡ manager.pid_vector)
unregister-register_example = unregister-register 99 (7 ∷ 8 ∷ []) manager manager-Below

abbrev urgent : TaskData
urgent = record { proc_table = table; pool_priority = high_priority; starve_counter = 0 }

abbrev lazy : TaskData
lazy = record { proc_table = table; pool_priority = low_priority; starve_counter = 3 }

abbrev pool : List TaskData
pool = lazy ∷ urgent ∷ []

pool-IsSorted : IsSorted pool
pool-IsSorted = ((omega arith, tt), (tt, tt))

abbrev middle : TaskData
middle = record { proc_table = table; pool_priority = medium_priority; starve_counter = 4 }

waiting-push_task_example : waiting 2 (push_task middle pool) ≡ table ∷ []
waiting-push_task_example = waiting-push_task 2 middle pool pool-IsSorted

get_scheduled_task-Oldest_example :
    Oldest
      (urgent ∷ lazy ∷ middle ∷ lazy ∷ [])
      (get_scheduled_task (push_all (urgent ∷ lazy ∷ middle ∷ lazy ∷ []) []))
get_scheduled_task-Oldest_example = get_scheduled_task-Oldest (urgent ∷ lazy ∷ middle ∷ lazy ∷ [])

abbrev cleaner : ProcessStates
cleaner = record {
  process_type = 2;
  has_start = true;
  has_pause = true;
  has_end = true;
  has_fail = false;
}

abbrev scheduling : Scheduling
scheduling = record { manager = manager; pool = pool }

schedule_task-Scheduled_example :
    Scheduled 99 1 [] cleaner medium_priority scheduling true
      (schedule_task 99 1 [] (some cleaner) true medium_priority scheduling)
schedule_task-Scheduled_example =
    schedule_task-Scheduled 99 1 [] cleaner medium_priority scheduling true pool-IsSorted

move_jobs-Moved_example : Moved no_jobs two_jobs (move_jobs 3 no_jobs two_jobs)
move_jobs-Moved_example =
    move_jobs-Moved 3 no_jobs two_jobs
      (record {
        idle_valid = no_jobs-IsValid;
        busy_valid = two_jobs-IsValid;
        idle_unsliced = refl;
        busy_unsliced = refl;
      })
      (omega arith)
