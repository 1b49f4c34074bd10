-- ===== src/Scheduler/TaskPool/Order.antt =====
-- The order of the task pool.
use worker_unit.Base.{
  ℕ, ◌≤◌, ◌<◌, ◌≡◌, refl, List, [], ◌∷◌, ◌++◌, map, arith, ltb, ◌==◌, if◌then◌else◌, All,
  Bool-cases, inl, inr,
}
use worker_unit.Scheduler.Job.{ProcessTable, priority_number}
use worker_unit.Scheduler.TaskPool.{TaskData, starve, push_task}

abbrev pub number : TaskData → ℕ
number t = priority_number t.pool_priority

-- From the front on, the priority numbers do not rise.
abbrev pub IsSorted : List TaskData → Type 0
IsSorted [] = Unit
IsSorted (t ∷ ts) = All (λ u. number u ≤ number t) ts × IsSorted ts

pub starve-keeps :
    (t : TaskData) → (number (starve t) ≡ number t) × ((starve t).proc_table ≡ t.proc_table)
unfolding starve
starve-keeps t = ground arith

All-map-starve :
    (n : ℕ) (ts : List TaskData)
    → All (λ u. number u ≤ n) ts
    → All (λ u. number u ≤ n) (map starve ts)
All-map-starve n [] h = tt
All-map-starve n (t ∷ ts) h = (omega (arith, (starve-keeps t).0), All-map-starve n ts h.1)

map-starve-IsSorted : (ts : List TaskData) → IsSorted ts → IsSorted (map starve ts)
map-starve-IsSorted [] h = tt
map-starve-IsSorted (t ∷ ts) h =
    (rw (starve-keeps t).0 (All-map-starve (number t) ts h.0), map-starve-IsSorted ts h.1)

All-le_trans :
    {m n : ℕ} (ts : List TaskData) → m ≤ n → All (λ u. number u ≤ m) ts → All (λ u. number u ≤ n) ts
All-le_trans [] h a = tt
All-le_trans (t ∷ ts) h a = (omega arith, All-le_trans ts h a.1)

All-push :
    (n : ℕ) (t : TaskData) (ts : List TaskData)
    → number t ≤ n
    → All (λ u. number u ≤ n) ts
    → All (λ u. number u ≤ n) (push_task t ts)
unfolding push_task
All-push n t [] h a = (h, tt)
All-push n t (i ∷ is) h a = elim (Bool-cases (ltb (number i) (number t))) [
  | inl e ↦ rw e (h, All-map-starve n (i ∷ is) a)
  | inr e ↦ rw e (a.0, All-push n t is h a.1)
]

-- `pushTask` keeps the pool ordered by falling priority numbers.
pub push_task-IsSorted :
    (t : TaskData) (ts : List TaskData) → IsSorted ts → IsSorted (push_task t ts)
unfolding push_task
push_task-IsSorted t [] h = (tt, tt)
push_task-IsSorted t (i ∷ is) h = elim (Bool-cases (ltb (number i) (number t))) [
  | inl e ↦ rw e (
    All-map-starve (number t) (i ∷ is) (ground arith, All-le_trans is (ground arith) h.0),
    map-starve-IsSorted (i ∷ is) h,
  )
  | inr e ↦ rw e (All-push (number i) t is (ground arith) h.0, push_task-IsSorted t is h.1)
]

-- The tables of one priority, in pool order.
abbrev pub waiting : ℕ → List TaskData → List ProcessTable
waiting n [] = []
waiting n (t ∷ ts) = if number t == n then t.proc_table ∷ waiting n ts else waiting n ts

waiting-starve : (n : ℕ) (ts : List TaskData) → waiting n (map starve ts) ≡ waiting n ts
waiting-starve n [] = refl
waiting-starve n (t ∷ ts) = ground (arith, starve-keeps t, waiting-starve n ts)

pub waiting-none :
    (n m : ℕ) (ts : List TaskData) → All (λ u. number u ≤ m) ts → m < n → waiting n ts ≡ []
waiting-none n m [] a h = refl
waiting-none n m (t ∷ ts) a h = ground (arith, waiting-none n m ts a.1)

-- Each priority is served in order of arrival: in an ordered pool the new table comes behind those
-- of its priority, and the others' queues, priorities included, are as they were.
pub waiting-push_task :
    (n : ℕ) (t : TaskData) (ts : List TaskData)
    → IsSorted ts
    → waiting n (push_task t ts)
      ≡ (if number t == n then waiting n ts ++ (t.proc_table ∷ []) else waiting n ts)
unfolding push_task
waiting-push_task n t [] h = ground arith
waiting-push_task n t (i ∷ is) h = elim (Bool-cases (ltb (number i) (number t))) [
  | inl e ↦ ground (arith, waiting-starve n is, starve-keeps i, waiting-none n (number i) is h.0)
  | inr e ↦ ground (arith, waiting-push_task n t is h.1)
]

-- The starve counters stay far below the `uint16_t` range: once at most 4, they are so for good.
starve-counter : (t : TaskData) → t.starve_counter ≤ 4 → (starve t).starve_counter ≤ 4
unfolding starve
starve-counter t h = ground arith

map-starve-counters :
    (ts : List TaskData)
    → All (λ u. u.starve_counter ≤ 4) ts
    → All (λ u. u.starve_counter ≤ 4) (map starve ts)
map-starve-counters [] a = tt
map-starve-counters (t ∷ ts) a = (starve-counter t a.0, map-starve-counters ts a.1)

-- If all starve counters are at most 4, then they are so again after `pushTask`.
pub push_task-counters :
    (t : TaskData) (ts : List TaskData)
    → t.starve_counter ≤ 4
    → All (λ u. u.starve_counter ≤ 4) ts
    → All (λ u. u.starve_counter ≤ 4) (push_task t ts)
unfolding push_task
push_task-counters t [] h a = (h, tt)
push_task-counters t (i ∷ is) h a = elim (Bool-cases (ltb (number i) (number t))) [
  | inl e ↦ rw e (h, map-starve-counters (i ∷ is) a)
  | inr e ↦ rw e (a.0, push_task-counters t is h a.1)
]
