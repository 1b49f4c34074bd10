-- ===== src/Examples/Load.antt =====
-- The statistics engine at concrete inputs.
use worker_unit.Base.{refl, List, [], ◌∷◌, arith}
use worker_unit.Base.Int.{pos}
use worker_unit.Scheduler.Job.{high_priority, low_priority}
use worker_unit.Statistics.{StatisticsEngine, task_in, task_out}
use worker_unit.Statistics.Counters.{
  Call, timer_before, timer_after, thread_stats, run, IsValid, Refined, run_refines,
}
use worker_unit.Statistics.Timers.{MeasuresFrom, run-MeasuresFrom}

abbrev engine : StatisticsEngine
engine = record {
  thread_count = 4;
  statistics_array_size = 2;
  average_queue_time = record { total = pos 0; size = 1 };
  task_count_vector = 0 ∷ 3 ∷ 0 ∷ 0 ∷ [];
  queue_time_vector = pos 7 ∷ [];
  time_before = 1_000_000 ∷ [];
  time_after = 0;
}

engine-IsValid : IsValid engine
engine-IsValid = record { four = refl; averaged = omega arith; bounded = omega arith }

abbrev calls : List Call
calls =
    timer_before 3_000_000
    ∷ thread_stats high_priority task_in
    ∷ timer_after 9_000_000
    ∷ thread_stats low_priority task_out
    ∷ []

run_refines_example : Refined calls engine (run calls engine)
run_refines_example = run_refines calls engine engine-IsValid

run-MeasuresFrom_example : MeasuresFrom 1_000_000 (run calls engine)
run-MeasuresFrom_example = run-MeasuresFrom calls 1_000_000 [] engine engine-IsValid refl
