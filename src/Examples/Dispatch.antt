-- ===== src/Examples/Dispatch.antt =====
-- The jobs of a table in a pool with one task.
use worker_unit.Base.{ℕ, ◌+◌, false, List, [], ◌∷◌}
use worker_unit.Instances.{Instance}
use worker_unit.Scheduler.Job.{no_status, high_priority, low_priority}
use worker_unit.Scheduler.TaskPool.{TaskData, Scheduling}
use worker_unit.Scheduler.TaskPool.Order.{IsSorted}
use worker_unit.Algorithm.Split.{TableData, sched_algo}
use worker_unit.Algorithm.Packages.Dispatch.{Dispatched, sched_algo-Dispatched}

abbrev waiting_task : TaskData
waiting_task = record {
  proc_table = record {
    address = 1;
    pid = 7;
    process_type = 2;
    job_status = no_status;
    priority = low_priority;
    freed = false;
  };
  pool_priority = low_priority;
  starve_counter = 3;
}

abbrev scheduling : Scheduling
scheduling = record {
  manager = record { pid_vector = record { address = 1; pid = 7 } ∷ []; heap_top = 2 };
  pool = waiting_task ∷ [];
}

pool-IsSorted : IsSorted scheduling.pool
pool-IsSorted = (tt, tt)

-- An instance for candidate elimination.
abbrev learner : Instance
learner = record { instance_id = 73 ∷ []; linked_algorithm = 1; total_columns = 2; total_rows = 3 }

abbrev data_ : TableData
data_ = record {
  rows = 3;
  columns = 2;
  table_id = 84 ∷ [];
  priority = high_priority;
  instance_type = 73 ∷ [];
}

abbrev pids : ℕ → ℕ
pids i = i + 40

abbrev counters : ℕ → ℕ
counters i = 0

abbrev draws : ℕ → List ℕ
draws i = i ∷ []

sched_algo-Dispatched_example :
    Dispatched pids counters draws data_ {R = ℕ} 2
      (learner ∷ [])
      scheduling
      (sched_algo 2 (learner ∷ []) data_ [])
sched_algo-Dispatched_example =
    sched_algo-Dispatched pids counters draws data_ {R = ℕ} 2 (learner ∷ []) [] scheduling
      pool-IsSorted
