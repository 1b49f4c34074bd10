-- ===== src/Start.antt =====
-- main.cpp, configs.hpp and `init_sched` of scheduler/sched.cpp: what the worker makes of the answers
-- to its prompts before it runs.
use worker_unit.Base.{
  ℕ, zero, suc, ◌+◌, Bool, true, false, not, ◌||◌, List, [], ◌∷◌, ◌++◌, if◌then◌else◌,
}
use worker_unit.Base.Text.{Bytes, is_empty}
use worker_unit.Base.Int.{ℤ, pos, negsuc, gtz}
use worker_unit.Scheduler.ThreadQueue.{ThreadQueue, new_thread_queue}
use worker_unit.Statistics.{StatisticsEngine, new_statistics_engine}
pub mod Threads

pub record Configs : Type 0 where
  pub total_available_threads : ℤ
  pub host_name : Bytes
  pub port_number : Bytes
  pub worker_id : Bytes

unfoldable pub new_configs : ℤ → Bytes → Bytes → Configs
new_configs threads host port = record {
  total_available_threads = threads;
  host_name = host;
  port_number = port;
  worker_id = [];
}

unfoldable pub set_worker_id : Bytes → Configs → Configs
set_worker_id id c = record c { worker_id = id }

-- MAX_THREAD
abbrev pub max_thread : ℤ
max_thread = pos 10

-- `threadCount <= 0`
abbrev pub is_positive : ℤ → Bool
is_positive n = gtz n (pos 0)

-- The thread count that `main` goes on with; it is a number then.
unfoldable pub checked : ℤ → ℕ
checked (negsuc n) = 2
checked (pos n) = if gtz (pos n) max_thread || not (is_positive (pos n)) then 2 else n

-- The loop of `init_sched` from queue `i` on.
unfoldable pub queues_from : ℕ → ℕ → List ThreadQueue
unfolding new_thread_queue
queues_from i zero = []
queues_from i (suc n) = new_thread_queue i ∷ queues_from (i + 1) n

-- The loop runs up to the count of the configuration. The argument of `init_sched`, a `uint8_t`, is
-- not used.
unfoldable pub init_sched : ℕ → Configs → List ThreadQueue
unfolding queues_from
init_sched threads c = elim c.total_available_threads [ pos n ↦ queues_from 0 n | negsuc n ↦ [] ]

-- "0.0.0.0" and "8080"
abbrev pub default_net : Bytes × Bytes
default_net = (48 ∷ 46 ∷ 48 ∷ 46 ∷ 48 ∷ 46 ∷ 48 ∷ [], 56 ∷ 48 ∷ 56 ∷ 48 ∷ [])

-- `net` is what the prompts fall back to. The configuration gets the answers themselves.
unfoldable pub net : Bytes → Bytes → Bytes × Bytes
unfolding is_empty
net host port = if is_empty host || is_empty port then default_net else (host, port)

pub record Started : Type 0 where
  pub configs : Configs
  pub thread_queues : List ThreadQueue
  pub stats : StatisticsEngine

-- `main` up to its endless loop, with the three answers.
unfoldable pub start : Bytes → Bytes → ℤ → Started
unfolding new_configs checked init_sched new_statistics_engine
start host port threads =
    let c = new_configs threads host port in
    record {
      configs = c;
      thread_queues = init_sched (checked threads) c;
      stats = new_statistics_engine (checked threads) 10;
    }
