-- ===== src/Scheduler/Balance.antt =====
-- The scheduler thread of scheduler/sched.cpp: which queue a task goes to, and how idle queues are
-- filled. The list holds the queues of `threadQueueList`, one for each configured thread.
pub mod Choice
pub mod Moves
pub mod Shares
pub mod Rebalance
pub mod HandOut
pub mod Rounds
pub mod Theft
use worker_unit.Base.{
  ℕ, zero, suc, ◌+◌, ◌-◌, ◌≤◌, Bool, true, false, not, ◌&&◌, ◌||◌, Option, none, some, List, [],
  ◌∷◌, ltb, leb, ◌==◌, if◌then◌else◌, get_elem?, set, length,
}
use worker_unit.Scheduler.Job.{QueueJob, init_job}
use worker_unit.Scheduler.ThreadQueue.{
  Cell, unset, null, job, ThreadQueue, Code, success, failure, queue_size, add_new_task, pop_job,
  get_total_wait_time, flush_finished_jobs,
}
use worker_unit.Scheduler.TaskPool.{TaskData, get_scheduled_task}

unfoldable pub get_total_empty_slots : List ThreadQueue → ℕ
get_total_empty_slots [] = 0
get_total_empty_slots (q ∷ qs) = queue_size - q.total_jobs_in_queue + get_total_empty_slots qs

abbrev pub int_max : ℕ
int_max = 2_147_483_647

-- The test of `get_quickest_queue` on one queue.
abbrev pub is_quicker : ThreadQueue → ℕ → Bool
is_quicker q lowest =
    not (leb queue_size q.total_jobs_in_queue) && ltb (get_total_wait_time q) lowest

-- Its loop from queue `i` on, with `threadID` (`none` for -1) and `lowestWaitTime`.
unfoldable pub quickest_from : ℕ → Option ℕ → ℕ → List ThreadQueue → Option ℕ × ℕ
quickest_from i best lowest [] = (best, lowest)
quickest_from i best lowest (q ∷ qs) =
    quickest_from (i + 1) (if is_quicker q lowest then some i else best)
      (if is_quicker q lowest then get_total_wait_time q else lowest) qs

unfoldable pub get_quickest_queue : List ThreadQueue → Option ℕ
unfolding quickest_from
get_quickest_queue qs = (quickest_from 0 none int_max qs).0

unfoldable pub empty_from : ℕ → List ThreadQueue → Option ℕ
empty_from i [] = none
empty_from i (q ∷ qs) = if get_total_wait_time q == 0 then some i else empty_from (i + 1) qs

unfoldable pub get_empty_thread_queue : List ThreadQueue → Option ℕ
unfolding empty_from
get_empty_thread_queue qs = empty_from 0 qs

-- `largestWaitTime` stays 0: the loop never stores into it.
abbrev pub is_busier : ThreadQueue → Bool
is_busier q = not (ltb q.total_jobs_in_queue 2) && ltb 0 (get_total_wait_time q)

unfoldable pub busiest_from : ℕ → Option ℕ → List ThreadQueue → Option ℕ
busiest_from i best [] = best
busiest_from i best (q ∷ qs) = busiest_from (i + 1) (if is_busier q then some i else best) qs

unfoldable pub get_busiest_thread_queue : List ThreadQueue → Option ℕ
unfolding busiest_from
get_busiest_thread_queue qs = busiest_from 0 none qs

-- What follows a call of `popJob`, whose undefined behaviour is `unset`.
abbrev pub popped {ℓ} : {A : Type ℓ} → Cell → Option A → Option A
popped unset r = none
popped null r = r
popped (job j) r = r

-- The inner loop of `rebalance_thread_queues` on its two queues, with fuel. The flag says that
-- fuel was left; `none` is undefined behaviour. A job that the idle queue refuses after it was popped
-- is lost, as in the source.
unfoldable pub move_jobs : ℕ → ThreadQueue → ThreadQueue → Option (Bool × ThreadQueue × ThreadQueue)
move_jobs zero idle busy = some (false, idle, busy)
move_jobs (suc fuel) idle busy =
    let (c, busy') = pop_job busy in
    let (code, idle') = add_new_task c idle in
    let rest = move_jobs fuel idle' busy' in
    if ltb (get_total_wait_time idle) (get_total_wait_time busy)
    then popped c (elim code [ success ↦ rest | failure ↦ some (true, idle', busy') ])
    else some (true, idle, busy)

-- One round of the outer loop: `stop` for its `break` and its `return`.
pub data Rebalanced : Type 0 where
  stop undefined : Rebalanced
  next : List ThreadQueue → Rebalanced

unfoldable pub rebalance_round : List ThreadQueue → Rebalanced
unfolding move_jobs get_empty_thread_queue get_busiest_thread_queue
rebalance_round qs = elim (get_empty_thread_queue qs) [
  | none ↦ stop
  | some free ↦ elim (get_busiest_thread_queue qs) [
    | none ↦ stop
    | some busiest ↦ if busiest == free then stop else elim (get_elem? qs free) [
      | none ↦ stop
      | some idle ↦ elim (get_elem? qs busiest) [
        | none ↦ stop
        | some busy ↦ elim (move_jobs (busy.total_jobs_in_queue + 1) idle busy) [
          | none ↦ undefined
          | some (_, idle', busy') ↦ next (set (set qs free idle') busiest busy')
        ]
      ]
    ]
  ]
]

unfoldable pub rebalance_rounds : ℕ → List ThreadQueue → Option (List ThreadQueue)
unfolding rebalance_round
rebalance_rounds zero qs = some qs
rebalance_rounds (suc n) qs = elim (rebalance_round qs) [
  | stop ↦ some qs
  | undefined ↦ none
  | next rs ↦ rebalance_rounds n rs
]

unfoldable pub rebalance_thread_queues : List ThreadQueue → Option (List ThreadQueue)
unfolding rebalance_rounds get_total_empty_slots
rebalance_thread_queues qs =
    if get_total_empty_slots qs == 0 then some qs else rebalance_rounds (length qs - 1) qs

-- The loop of `sched_task` that hands tasks out, over the empty slots counted before it. `none` is
-- a division by zero in `init_job`.
unfoldable pub hand_out :
    ℕ → List TaskData → List ThreadQueue → Option (List TaskData × List ThreadQueue)
unfolding get_quickest_queue get_scheduled_task init_job
hand_out zero pool qs = some (pool, qs)
hand_out (suc n) pool qs = elim (get_scheduled_task pool) [
  | none ↦ some (pool, qs)
  | some (t, rest) ↦ elim (get_quickest_queue qs) [
    | none ↦ some (pool, qs)
    | some i ↦ elim (init_job t.proc_table) [
      | none ↦ none
      | some j ↦ elim (get_elem? qs i) [
        | none ↦ none
        | some q ↦ hand_out n rest (set qs i (add_new_task (job j) q).1)
      ]
    ]
  ]
]

unfoldable pub flush_all : List ThreadQueue → Option (List ThreadQueue)
unfolding flush_finished_jobs
flush_all [] = some []
flush_all (q ∷ qs) = elim (flush_finished_jobs q) [
  | none ↦ none
  | some r ↦ elim (flush_all qs) [ none ↦ none | some rs ↦ some (r ∷ rs) ]
]

-- One round of `sched_task`, up to its wait; `none` is undefined behaviour.
unfoldable pub sched_round :
    List TaskData → List ThreadQueue → Option (List TaskData × List ThreadQueue)
unfolding get_total_empty_slots flush_all hand_out rebalance_thread_queues
sched_round pool qs = elim (flush_all qs) [
  | none ↦ none
  | some rs ↦ elim (hand_out (get_total_empty_slots qs) pool rs) [
    | none ↦ none
    | some (pool', ss) ↦ elim (rebalance_thread_queues ss) [
      | none ↦ none
      | some ts ↦ some (pool', ts)
    ]
  ]
]
