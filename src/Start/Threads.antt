-- ===== src/Start/Threads.antt =====
-- How many threads run, and how many the worker says that it has.
use worker_unit.Base.{
  ℕ, zero, suc, ◌+◌, ◌≤◌, ◌<◌, ◌≡◌, refl, ap, ◌∙◌, Bool, true, false, none, some, List, [], length,
  arith, get_elem?, ltb, if◌then◌else◌,
}
use worker_unit.Base.Text.{Bytes}
use worker_unit.Base.Int.{ℤ, pos, negsuc}
use worker_unit.Scheduler.ThreadQueue.{new_thread_queue, flush_finished_jobs, flush_slots}
use worker_unit.Scheduler.TaskPool.{TaskData}
use worker_unit.Scheduler.Balance.{
  sched_round, hand_out, flush_all, get_total_empty_slots, rebalance_thread_queues,
}
use worker_unit.Statistics.{new_statistics_engine}
use worker_unit.Start.{checked, queues_from, init_sched, start, new_configs}

length-queues_from : (i n : ℕ) → length (queues_from i n) ≡ n
unfolding queues_from
length-queues_from i zero = refl
length-queues_from i (suc n) = ap suc (length-queues_from (i + 1) n)

get_elem?-queues_from :
    (i n k : ℕ) → k < n → get_elem? (queues_from i n) k ≡ some (new_thread_queue (i + k))
unfolding queues_from
get_elem?-queues_from i zero k h = absurd (omega arith)
get_elem?-queues_from i (suc n) zero h = ap (λ j. some (new_thread_queue j)) (omega arith)
get_elem?-queues_from i (suc n) (suc k) h =
    get_elem?-queues_from (i + 1) n k (omega arith)
    ∙ ap (λ j. some (new_thread_queue j)) (omega arith)

-- Whether the answer is one that `main` takes.
abbrev pub in_range : ℤ → Bool
in_range (pos n) = if ltb 0 n then ltb n 11 else false
in_range (negsuc n) = false

abbrev pub asked : ℤ → ℕ
asked (pos n) = n
asked (negsuc n) = 0

-- Without a queue there is nothing to do, and a queue fresh from its constructor has pointers that were
-- never written in slots that are marked done, which the first flush deletes.
first_round :
    (pool : List TaskData) (i n : ℕ)
    → sched_round pool (queues_from i n) ≡ (if ltb 0 n then none else some (pool, []))
unfolding queues_from new_thread_queue sched_round flush_all flush_finished_jobs flush_slots
    hand_out rebalance_thread_queues get_total_empty_slots
first_round pool i zero = refl
first_round pool i (suc n) = let e : ltb 0 (suc n) ≡ true = ground arith in rw e refl

-- `main` makes as many queues as it was asked for threads, in order, and none for a negative answer:
-- the check of the answer does not reach the scheduler. It reaches only the statistics, which tell
-- the server of 2 threads for every answer that is not between 1 and 10. The first round of the
-- scheduler deletes an unwritten pointer, if there is a queue, and otherwise leaves all tasks.
pub start-asked :
    (host port : Bytes) (answer : ℤ) (pool : List TaskData)
    → let s = start host port answer in
      (length s.thread_queues ≡ asked answer)
      × ((k : ℕ) → k < asked answer → get_elem? s.thread_queues k ≡ some (new_thread_queue k))
      × (s.stats.thread_count ≡ (if in_range answer then length s.thread_queues else 2))
      × (s.stats.thread_count ≤ 10)
      × (sched_round pool s.thread_queues
          ≡ (if ltb 0 (asked answer) then none else some (pool, [])))
unfolding start init_sched queues_from new_configs checked new_statistics_engine
start-asked host port (negsuc n) pool =
    (refl, λ k h. absurd (omega arith), refl, omega arith, first_round pool 0 0)
start-asked host port (pos n) pool = (
  length-queues_from 0 n,
  λ k h. get_elem?-queues_from 0 n k h ∙ ap (λ j. some (new_thread_queue j)) (omega arith),
  ground (arith, length-queues_from 0 n),
  ground arith,
  first_round pool 0 n,
)
