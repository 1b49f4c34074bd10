-- ===== src/Algorithm/Packages.antt =====
-- algorithm/algorithm_scheduler.hpp, algorithm/example.cpp: the table of algorithms, and the jobs that
-- sched_algo schedules through it.
use worker_unit.Base.{ℕ, zero, suc, ◌+◌, Bool, true, false, Option, none, some, List, [], ◌∷◌}
use worker_unit.Scheduler.TaskPool.{ProcessStates, Scheduling, schedule_task}
use worker_unit.Algorithm.Split.{AlgorithmCall}
pub mod Dispatch

-- The members that the initialiser leaves out are zero.
abbrev pub example_proc : ProcessStates
example_proc = record {
  process_type = 0;
  has_start = true;
  has_pause = true;
  has_end = true;
  has_fail = false;
}

abbrev pub ce_algorithm : ProcessStates
ce_algorithm = record {
  process_type = 4;
  has_start = true;
  has_pause = true;
  has_end = true;
  has_fail = false;
}

-- `avial_algo[algoIndex](...)`: the process, and whether its arguments are not null. `none` is an index past
-- the table.
unfoldable pub avial_algo : ℕ → Option (ProcessStates × Bool)
avial_algo zero = some (example_proc, false)
avial_algo (suc zero) = some (ce_algorithm, true)
avial_algo (suc (suc n)) = none

abbrev pub ce_finalize_proc : ProcessStates
ce_finalize_proc = record {
  process_type = 4;
  has_start = true;
  has_pause = true;
  has_end = true;
  has_fail = false;
}

-- `avialable_finalize_algo[algoIndex](...)`, likewise.
unfoldable pub avialable_finalize_algo : ℕ → Option (ProcessStates × Bool)
avialable_finalize_algo zero = some (example_proc, false)
avialable_finalize_algo (suc zero) = some (ce_finalize_proc, true)
avialable_finalize_algo (suc (suc n)) = none

-- The caller drops the result of `scheduleTask`.
unfoldable pub kept_or : Scheduling → Option Scheduling → Scheduling
kept_or s none = s
kept_or s (some s') = s'

-- For the call with a number: its uninitialised pid and starve counter, and its random draws.
module _ (garbage counter : ℕ → ℕ) (draws : ℕ → List ℕ) where
  unfoldable pub schedule_package :
      ℕ → AlgorithmCall → Option (ProcessStates × Bool) → Scheduling → Scheduling
  unfolding kept_or schedule_task
  schedule_package i c none s = s
  schedule_package i c (some (p, has_args)) s =
      kept_or s (schedule_task (garbage i) (counter i) (draws i) (some p) has_args c.priority s)

  -- The calls of the loop and the one after it.
  unfoldable pub schedule_calls : ℕ → List AlgorithmCall → Scheduling → Scheduling
  unfolding schedule_package avial_algo
  schedule_calls i [] s = s
  schedule_calls i (c ∷ cs) s =
      schedule_calls (i + 1) cs (schedule_package i c (avial_algo c.algo_index) s)
