-- ===== src/Statistics.antt =====
-- services/stats_engine.cpp: what the worker tells the server about its load. The four semaphores
-- are taken and released within a call, in an order that cannot block.
use worker_unit.Base.{
  ℕ, zero, suc, ◌+◌, ◌-◌, ◌/◌, ◌%◌, ◌^◌, Bool, true, false, Option, none, some, List, [], ◌∷◌, ◌++◌,
  ltb, leb, ◌==◌, if◌then◌else◌, get_elem?, length, set,
}
use worker_unit.Base.Text.{Bytes}
use worker_unit.Base.Int.{ℤ, pos, negsuc, subz, ◌+ℤ◌}
use worker_unit.FileDatabase.{comma}
use worker_unit.Scheduler.Job.{TaskPriority, priority_number}
use worker_unit.Algorithm.Finalize.{to_string}
pub mod Counters
pub mod Timers

-- A quotient that the source holds as a double.
pub record Average : Type 0 where
  pub total : ℤ
  pub size : ℕ

-- `enum TaskStatus`
pub data TaskStatus : Type 0 where
  task_in task_out : TaskStatus

-- The points of time are numbers of nanoseconds.
pub record StatisticsEngine : Type 0 where
  pub thread_count : ℕ
  pub statistics_array_size : ℕ
  pub average_queue_time : Average
  pub task_count_vector : List ℕ
  pub queue_time_vector : List ℤ
  pub time_before : List ℕ
  pub time_after : ℕ

-- The loop pushes a zero for each of the priorities 0 to NR_TASK_PRIORITY, which is 3.
unfoldable pub new_statistics_engine : ℕ → ℕ → StatisticsEngine
new_statistics_engine thread_count array_size = record {
  thread_count = thread_count;
  statistics_array_size = array_size;
  average_queue_time = record { total = pos 0; size = 1 };
  task_count_vector = 0 ∷ 0 ∷ 0 ∷ 0 ∷ [];
  queue_time_vector = [];
  time_before = [];
  time_after = 0;
}

unfoldable pub sum : List ℤ → ℤ
sum [] = pos 0
sum (t ∷ ts) = t +ℤ sum ts

-- The quotient as an int, cut off towards zero.
unfoldable pub truncate : Average → ℤ
truncate a = elim a.total [ pos n ↦ pos (n / a.size) | negsuc n ↦ subz 0 (suc n / a.size) ]

unfoldable pub calculate_avg_timer_vector : StatisticsEngine → StatisticsEngine
unfolding sum truncate
calculate_avg_timer_vector e =
    let final_average : Average = record {
      total = sum e.queue_time_vector;
      size = length e.queue_time_vector;
    } in
    if length e.queue_time_vector == 0 then e else record e {
      queue_time_vector = truncate final_average ∷ [];
      average_queue_time = final_average;
    }

unfoldable pub update_timer_before : ℕ → StatisticsEngine → StatisticsEngine
update_timer_before now e = record e { time_before = e.time_before ++ (now ∷ []) }

-- The conversion of a number of milliseconds to an int of 32 bits.
unfoldable pub to_int : ℕ → ℤ
to_int n = if ltb (n % 2 ^ 32) (2 ^ 31) then pos (n % 2 ^ 32) else negsuc (2 ^ 32 - 1 - n % 2 ^ 32)

-- `!timeBefore.size()` guards `pop_front`.
unfoldable pub pop_front : List ℕ → List ℕ
pop_front [] = []
pop_front (t ∷ ts) = if length (t ∷ ts) == 0 then ts else t ∷ ts

-- The time from `t` to `now` is recorded; the clock does not go back.
unfoldable pub with_time : ℕ → ℕ → List ℕ → StatisticsEngine → StatisticsEngine
unfolding to_int pop_front
with_time now t ts e = record e {
  time_after = now;
  queue_time_vector = e.queue_time_vector ++ (to_int ((now - t) / 1_000_000) ∷ []);
  time_before = pop_front (t ∷ ts);
}

abbrev pub averaged_if : Bool → StatisticsEngine → StatisticsEngine
averaged_if b e = if b then calculate_avg_timer_vector e else e

abbrev pub is_full : StatisticsEngine → Bool
is_full e = leb e.statistics_array_size (length e.queue_time_vector)

-- `none` is `front()` of an empty list.
unfoldable pub record_time : List ℕ → ℕ → StatisticsEngine → Option StatisticsEngine
unfolding with_time calculate_avg_timer_vector
record_time [] now e = none
record_time (t ∷ ts) now e = let e' = with_time now t ts e in some (averaged_if (is_full e') e')

unfoldable pub update_timer_after : ℕ → StatisticsEngine → Option StatisticsEngine
unfolding record_time
update_timer_after now e = record_time e.time_before now e

abbrev pub with_count : ℕ → ℕ → StatisticsEngine → StatisticsEngine
with_count i n e = record e { task_count_vector = set e.task_count_vector i n }

-- The counter that was found at the index; `none` is an index past the vector, which a default
-- engine leaves empty. The counters are ints; their overflow, with 2^31 tasks of one priority in the
-- pool, is not modelled.
unfoldable pub count_task : Option ℕ → ℕ → TaskStatus → StatisticsEngine → Option StatisticsEngine
count_task none i status e = none
count_task (some n) i task_in e = some (with_count i (n + 1) e)
count_task (some n) i task_out e = some (if n == 0 then e else with_count i (n - 1) e)

unfoldable pub update_thread_stats :
    TaskPriority → TaskStatus → StatisticsEngine → Option StatisticsEngine
unfolding count_task
update_thread_stats priority status e =
    let i = priority_number priority in count_task (get_elem? e.task_count_vector i) i status e

unfoldable pub join_counts : List ℕ → Bytes
unfolding to_string
join_counts [] = []
join_counts (n ∷ ns) = comma ∷ (to_string (pos n) ++ join_counts ns)

-- `none` is `taskCountVector[0]` of an empty vector.
unfoldable pub task_queue : List ℕ → Option Bytes
unfolding join_counts to_string
task_queue [] = none
task_queue (n ∷ ns) = some (to_string (pos n) ++ join_counts ns)

-- The fields of `packet["stats"]`.
pub record Stats : Type 0 where
  pub task_queue_text : Bytes
  pub avg_queue_time : Average
  pub total_available_threads : ℕ

abbrev pub is_zero : ℤ → Bool
is_zero (pos n) = n == 0
is_zero (negsuc n) = false

unfoldable pub to_json : StatisticsEngine → Option (Stats × StatisticsEngine)
unfolding task_queue calculate_avg_timer_vector
to_json e =
    let e' = if is_zero e.average_queue_time.total then calculate_avg_timer_vector e else e in
    elim (task_queue e.task_count_vector) [
      | none ↦ none
      | some text ↦ some (
        record {
          task_queue_text = text;
          avg_queue_time = e'.average_queue_time;
          total_available_threads = e.thread_count;
        },
        e',
      )
    ]
