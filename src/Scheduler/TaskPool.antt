-- ===== src/Scheduler/TaskPool.antt =====
-- scheduler/task_pool.cpp: the pool that tasks wait in, and `scheduleTask`, its entrance.
pub mod Order
pub mod Oldest
pub mod Schedule
use worker_unit.Base.{
  ℕ, zero, suc, ◌+◌, ◌%◌, ◌^◌, Bool, true, false, not, ◌&&◌, ◌||◌, Option, none, some, List, [],
  ◌∷◌, map, ltb, ◌==◌, if◌then◌else◌,
}
use worker_unit.Scheduler.Job.{ProcessTable, TaskPriority, priority_number}
use worker_unit.Scheduler.Registry.{ProcessManager, register_process}

-- `starve_counter` is a `uint16_t`.
pub record TaskData : Type 0 where
  pub proc_table : ProcessTable
  pub pool_priority : TaskPriority
  pub starve_counter : ℕ

unfoldable pub get_starve_limit : ℕ → ℕ
get_starve_limit prior =
    if prior == 1 then 4 else if prior == 2 then 6 else if prior == 3 then 8 else 0

-- One round of the inner loop. The statement `(*j).poolPriority - 1;` stores nothing.
unfoldable pub starve : TaskData → TaskData
unfolding get_starve_limit
starve t =
    if ltb (get_starve_limit t.starve_counter) t.starve_counter
    then record t { starve_counter = 0 }
    else record t { starve_counter = (t.starve_counter + 1) % 2 ^ 16 }

-- `pushTask`: before the first task with a smaller priority number, or else at the back.
unfoldable pub push_task : TaskData → List TaskData → List TaskData
unfolding starve
push_task t [] = t ∷ []
push_task t (i ∷ is) =
    if ltb (priority_number i.pool_priority) (priority_number t.pool_priority)
    then t ∷ map starve (i ∷ is)
    else i ∷ push_task t is

-- `none` is EXIT_FAILURE.
unfoldable pub pop_task : List TaskData → Option (TaskData × List TaskData)
pop_task [] = none
pop_task (t ∷ ts) = some (t, ts)

-- `getScheduledTask` passes the result of `popTask` on.
unfoldable pub get_scheduled_task : List TaskData → Option (TaskData × List TaskData)
unfolding pop_task
get_scheduled_task pool = elim (pop_task pool) [ none ↦ none | some r ↦ some r ]

-- The number of `NR_PROCESS` is 5.
unfoldable pub is_process_type_valid : ℕ → Bool
is_process_type_valid type = ltb type 5

-- A `ProcessStates`: the number of its type, and which of its functions are given.
pub record ProcessStates : Type 0 where
  pub process_type : ℕ
  pub has_start : Bool
  pub has_pause : Bool
  pub has_end : Bool
  pub has_fail : Bool

pub record Scheduling : Type 0 where
  pub manager : ProcessManager
  pub pool : List TaskData

-- `scheduleTask`; `none` is EXIT_FAILURE. The two numbers are the uninitialised pid and starve
-- counter, `has_args` says that `args` is not null.
unfoldable pub schedule_task :
    ℕ → ℕ → List ℕ → Option ProcessStates → Bool → TaskPriority → Scheduling → Option Scheduling
unfolding push_task is_process_type_valid register_process
schedule_task garbage counter draws none has_args priority s = none
schedule_task garbage counter draws (some p) has_args priority s =
    if not has_args
    then none
    else if not p.has_start || not p.has_end || not (is_process_type_valid p.process_type)
    then none
    else let (t, m) = register_process garbage draws s.manager in
      let table : ProcessTable = record t { process_type = p.process_type; priority = priority } in
      some (record {
        manager = m;
        pool =
            push_task
              (record { proc_table = table; pool_priority = priority; starve_counter = counter })
              s.pool;
      })

-- `reScheduleTask` sets the table only, so that the task's priority and starve counter are
-- uninitialised.
unfoldable pub re_schedule_task : TaskPriority → ℕ → ProcessTable → List TaskData → List TaskData
unfolding push_task
re_schedule_task garbage counter t pool =
    push_task (record { proc_table = t; pool_priority = garbage; starve_counter = counter }) pool
