-- ===== src/Scheduler/TaskPool/Schedule.antt =====
-- What `scheduleTask` accepts, and what becomes of an accepted process.
use worker_unit.Base.{
  ℕ, ◌+◌, ◌<◌, ◌≡◌, refl, Bool, true, false, Option, none, some, List, [], ◌∷◌, ◌++◌, arith, inl,
  inr, ltb, Bool-cases,
}
use worker_unit.Scheduler.Job.{ProcessTable, TaskPriority, priority_number, no_status}
use worker_unit.Scheduler.TaskPool.{TaskData, push_task, ProcessStates, Scheduling, schedule_task}
use worker_unit.Scheduler.TaskPool.Order.{IsSorted, waiting, push_task-IsSorted, waiting-push_task}

-- What `scheduleTask` asks of its arguments.
abbrev pub Accepts : ProcessStates → Bool → Type 0
Accepts p has_args =
    (has_args ≡ true) × (p.has_start ≡ true) × (p.has_end ≡ true) × (p.process_type < 5)

module _ (garbage counter : ℕ) (draws : List ℕ) (p : ProcessStates) (priority : TaskPriority)
    (s : Scheduling) where
  -- The table that an accepted process gets.
  abbrev pub new_table : ProcessTable
  new_table = record {
    address = s.manager.heap_top;
    pid = garbage;
    process_type = p.process_type;
    job_status = no_status;
    priority = priority;
    freed = false;
  }

  abbrev pub new_task : TaskData
  new_task = record { proc_table = new_table; pool_priority = priority; starve_counter = counter }

  abbrev pub Scheduled : Bool → Option Scheduling → Type 0
  Scheduled has_args none = ¬ Accepts p has_args
  Scheduled has_args (some r) =
      Accepts p has_args
      × IsSorted r.pool
      × (r.pool ≡ push_task new_task s.pool)
      × (waiting (priority_number priority) r.pool
          ≡ waiting (priority_number priority) s.pool ++ (new_table ∷ []))
      × (r.manager.pid_vector
          ≡ s.manager.pid_vector ++ (record { address = s.manager.heap_top; pid = garbage } ∷ []))
      × (r.manager.heap_top ≡ s.manager.heap_top + 1)

  new_waits :
      IsSorted s.pool
      → waiting (priority_number priority) (push_task new_task s.pool)
        ≡ waiting (priority_number priority) s.pool ++ (new_table ∷ [])
  new_waits h = ground (arith, waiting-push_task (priority_number priority) new_task s.pool h)

  -- `scheduleTask` refuses exactly the calls with null arguments, a missing start or end function
  -- or a type of 5 or more. An accepted process gets a fresh table, registered behind the others with
  -- the pid that was never set. The table carries its type and priority, waits behind those of its
  -- priority, and leaves an ordered pool ordered.
  pub schedule_task-Scheduled :
      (has_args : Bool)
      → IsSorted s.pool
      → Scheduled has_args (schedule_task garbage counter draws (some p) has_args priority s)
  unfolding schedule_task
  schedule_task-Scheduled false h = λ a. cc
  schedule_task-Scheduled true h = elim (Bool-cases p.has_start) [
    | inr e ↦ rw e (λ a. ground arith)
    | inl e ↦ elim (Bool-cases p.has_end) [
      | inr e' ↦ rw (e, e') (λ a. ground arith)
      | inl e' ↦ elim (Bool-cases (ltb p.process_type 5)) [
        | inr n ↦ rw (e, e', n) (λ a. ground arith)
        | inl y ↦
            rw (e, e', y)
              (
                (refl, refl, refl, ground arith),
                push_task-IsSorted new_task s.pool h,
                refl,
                new_waits h,
                refl,
                refl,
              )
      ]
    ]
  ]
