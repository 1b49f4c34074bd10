-- ===== src/Statistics/Counters.antt =====
-- The task counters under any sequence of calls.
use worker_unit.Base.{
  ℕ, zero, suc, ◌+◌, ◌-◌, ◌<◌, ◌≤◌, ◌≡◌, refl, ap, sym, subst, ◌∙◌, true, false, Option, none, some,
  List, [], ◌∷◌, arith, Bool, false, ◌&&◌, ◌==◌, if◌then◌else◌, get_elem?, length, set, Bool-cases,
  inl, inr, ==_iff, length-set, ◌++◌,
}
use worker_unit.Scheduler.Job.{
  TaskPriority, priority_number, non_preemtable, high_priority, medium_priority, low_priority,
}
use worker_unit.Statistics.{
  TaskStatus, task_in, task_out, StatisticsEngine, calculate_avg_timer_vector, update_timer_before,
  pop_front, with_time, is_full, averaged_if, record_time, with_count, count_task,
  update_timer_after, update_thread_stats,
}

-- A call of the engine; the clock shows `now`.
pub data Call : Type 0 where
  timer_before timer_after : (now : ℕ) → Call
  thread_stats : TaskPriority → TaskStatus → Call

unfoldable pub step : Call → StatisticsEngine → Option StatisticsEngine
unfolding update_timer_before update_timer_after update_thread_stats
step (timer_before now) e = some (update_timer_before now e)
step (timer_after now) e = update_timer_after now e
step (thread_stats p s) e = update_thread_stats p s e

unfoldable pub run : List Call → StatisticsEngine → Option StatisticsEngine
unfolding step
run [] e = some e
run (c ∷ cs) e = elim (step c e) [ none ↦ none | some e' ↦ run cs e' ]

-- The same calls on one number for each priority.
abbrev pub count : TaskStatus → ℕ → ℕ
count task_in n = n + 1
count task_out n = n - 1

abbrev pub counted : Call → ℕ → ℕ → ℕ
counted (thread_stats q s) p n = if priority_number q == p then count s n else n
counted _ p n = n

abbrev pub replay : List Call → ℕ → ℕ → ℕ
replay [] p n = n
replay (c ∷ cs) p n = replay cs p (counted c p n)

-- Whether a first point of time is there whenever one is needed; `started` says that it is there
-- at the beginning.
abbrev pub fits : Call → Bool → Bool
fits (timer_after now) started = started
fits _ started = true

abbrev pub starts : Call → Bool → Bool
starts (timer_before now) started = true
starts _ started = started

abbrev pub timed : List Call → Bool → Bool
timed [] started = true
timed (c ∷ cs) started = fits c started && timed cs (starts c started)

abbrev pub has_started : StatisticsEngine → Bool
has_started e = elim e.time_before [ [] ↦ false | t ∷ ts ↦ true ]

-- Four counters, and fewer times than are averaged.
pub record IsValid (e : StatisticsEngine) : Type 0 where
  pub four : length e.task_count_vector ≡ 4
  pub averaged : 2 ≤ e.statistics_array_size
  pub bounded : length e.queue_time_vector < e.statistics_array_size

abbrev pub value : List ℕ → ℕ → ℕ
value v p = elim (get_elem? v p) [ none ↦ 0 | some n ↦ n ]

abbrev pub counter : ℕ → StatisticsEngine → ℕ
counter p e = value e.task_count_vector p

-- A step fails exactly if it lacks a first point of time. Otherwise it keeps the invariant, and
-- does to the counters what it does to the numbers.
abbrev pub Stepped : Call → StatisticsEngine → Option StatisticsEngine → Type 0
Stepped c e none = fits c (has_started e) ≡ false
Stepped c e (some e') =
    (fits c (has_started e) ≡ true)
    × IsValid e'
    × ((p : ℕ) → counter p e' ≡ counted c p (counter p e))
    × (has_started e' ≡ starts c (has_started e))

value-set :
    (v : List ℕ) (i p n : ℕ)
    → i < length v
    → value (set v i n) p ≡ (if i == p then n else value v p)
value-set [] i p n h = absurd (omega arith)
value-set (x ∷ v) zero zero n h = refl
value-set (x ∷ v) zero (suc p) n h = ground arith
value-set (x ∷ v) (suc i) zero n h = ground arith
value-set (x ∷ v) (suc i) (suc p) n h = ground (arith, value-set v i p n (omega arith))

pub get_elem?-value : (v : List ℕ) (i : ℕ) → i < length v → get_elem? v i ≡ some (value v i)
get_elem?-value [] i h = absurd (omega arith)
get_elem?-value (x ∷ v) zero h = refl
get_elem?-value (x ∷ v) (suc i) h = get_elem?-value v i (omega arith)

pub priority_number-lt : (p : TaskPriority) → priority_number p < 4
priority_number-lt non_preemtable = omega arith
priority_number-lt high_priority = omega arith
priority_number-lt medium_priority = omega arith
priority_number-lt low_priority = omega arith

average-bounded :
    (e : StatisticsEngine)
    → 2 ≤ e.statistics_array_size
    → length (calculate_avg_timer_vector e).queue_time_vector < e.statistics_array_size
unfolding calculate_avg_timer_vector
average-bounded e h = ground arith

pub average-keeps :
    (e : StatisticsEngine)
    → ((calculate_avg_timer_vector e).task_count_vector ≡ e.task_count_vector)
      × ((calculate_avg_timer_vector e).statistics_array_size ≡ e.statistics_array_size)
      × ((calculate_avg_timer_vector e).time_before ≡ e.time_before)
unfolding calculate_avg_timer_vector
average-keeps e = ground arith

has_started-append :
    (ts : List ℕ) (t : ℕ) → (elim (ts ++ (t ∷ [])) [ [] ↦ false | x ∷ xs ↦ true ]) ≡ true
has_started-append [] t = refl
has_started-append (x ∷ ts) t = refl

before-Stepped :
    (now : ℕ) (e : StatisticsEngine)
    → IsValid e
    → Stepped (timer_before now) e (step (timer_before now) e)
unfolding step
before-Stepped now e v = (
  refl,
  record { four = v.four; averaged = v.averaged; bounded = v.bounded },
  λ p. refl,
  has_started-append e.time_before now,
)

abbrev Recorded : StatisticsEngine → List ℕ → StatisticsEngine → Type 0
Recorded e ts e' = IsValid e' × ((p : ℕ) → counter p e' ≡ counter p e) × (e'.time_before ≡ ts)

averaged-Recorded :
    (e : StatisticsEngine) (b : Bool)
    → length e.task_count_vector ≡ 4
    → 2 ≤ e.statistics_array_size
    → (b ≡ false → length e.queue_time_vector < e.statistics_array_size)
    → Recorded e e.time_before (averaged_if b e)
averaged-Recorded e true f a h =
    let (k, l, m) = average-keeps e in
    (
      record {
        four = ap length k ∙ f;
        averaged = omega arith;
        bounded = omega (arith, average-bounded e a);
      },
      λ p. ap (λ v. value v p) k,
      m,
    )
averaged-Recorded e false f a h =
    (record { four = f; averaged = a; bounded = h refl }, λ p. refl, refl)

-- The list of points of time is not empty, so nothing is taken from it.
pub pop_front_lem : (t : ℕ) (ts : List ℕ) → pop_front (t ∷ ts) ≡ t ∷ ts
unfolding pop_front
pop_front_lem t ts = ground arith

record-Stepped :
    (ts : List ℕ) (now : ℕ) (e : StatisticsEngine)
    → IsValid e
    → e.time_before ≡ ts
    → Stepped (timer_after now) e (record_time ts now e)
unfolding record_time with_time
record-Stepped [] now e v h = rw h refl
record-Stepped (t ∷ ts) now e v h =
    let e' = with_time now t ts e in
    let (w, k, m) = averaged-Recorded e' (is_full e') v.four v.averaged (λ b. ground arith) in
    (
      rw h refl,
      w,
      k,
      ap (λ l. elim l [ [] ↦ false | x ∷ xs ↦ true ]) (m ∙ pop_front_lem t ts ∙ sym h),
    )

with_count-IsValid : (i n : ℕ) (e : StatisticsEngine) → IsValid e → IsValid (with_count i n e)
with_count-IsValid i n e v = record {
  four = length-set e.task_count_vector i n ∙ v.four;
  averaged = v.averaged;
  bounded = v.bounded;
}

-- Writing at one index what a function makes of the number there.
value-update :
    (f : ℕ → ℕ) (v : List ℕ) (i p : ℕ)
    → i < length v
    → value (set v i (f (value v i))) p ≡ (if i == p then f (value v p) else value v p)
value-update f v i p h = elim (Bool-cases (i == p)) [
  | inl e ↦ rw ((==_iff i p).0 e) (value-set v p p (f (value v p)) (rw (← (==_iff i p).0 e) h))
  | inr e ↦ value-set v i p (f (value v i)) h ∙ rw e refl
]

count-Stepped :
    (q : TaskPriority) (s : TaskStatus) (e : StatisticsEngine)
    → IsValid e
    → Stepped
        (thread_stats q s)
        e
        (count_task (some (counter (priority_number q) e)) (priority_number q) s e)
unfolding count_task
count-Stepped q task_in e v = (
  refl,
  with_count-IsValid (priority_number q) _ e v,
  λ p.
      value-update (λ n. n + 1) e.task_count_vector (priority_number q) p
        (omega (arith, v.four, priority_number-lt q)),
  refl,
)
count-Stepped q task_out e v = elim (Bool-cases (counter (priority_number q) e == 0)) [
  | inl z ↦ rw z (refl, v, λ p. ground arith, refl)
  | inr z ↦ rw z (
    refl,
    with_count-IsValid (priority_number q) _ e v,
    λ p.
        value-update (λ n. n - 1) e.task_count_vector (priority_number q) p
          (omega (arith, v.four, priority_number-lt q)),
    refl,
  )
]

-- What calls come to that start at a given engine.
abbrev pub Refined : List Call → StatisticsEngine → Option StatisticsEngine → Type 0
Refined cs e none = timed cs (has_started e) ≡ false
Refined cs e (some e') =
    (timed cs (has_started e) ≡ true)
    × IsValid e'
    × ((p : ℕ) → counter p e' ≡ replay cs p (counter p e))

pub step-Stepped : (c : Call) (e : StatisticsEngine) → IsValid e → Stepped c e (step c e)
unfolding step update_thread_stats update_timer_after
step-Stepped (timer_before now) e v = before-Stepped now e v
step-Stepped (timer_after now) e v = record-Stepped e.time_before now e v refl
step-Stepped (thread_stats q s) e v =
    subst (λ o. Stepped (thread_stats q s) e (count_task o (priority_number q) s e))
      (sym (
        get_elem?-value e.task_count_vector (priority_number q)
          (omega (arith, v.four, priority_number-lt q))))
      (count-Stepped q s e v)

cons-Refined :
    (c : Call) (cs : List Call) (e e' : StatisticsEngine) (o : Option StatisticsEngine)
    → Stepped c e (some e')
    → Refined cs e' o
    → Refined (c ∷ cs) e o
cons-Refined c cs e e' none (f, w, k, b) r = rw (f, ← b) r
cons-Refined c cs e e' (some x) (f, w, k, b) (t, w', k') =
    (rw (f, ← b) t, w', λ p. k' p ∙ ap (replay cs p) (k p))

run-cons :
    (c : Call) (cs : List Call) (e : StatisticsEngine) (o : Option StatisticsEngine)
    → Stepped c e o
    → ((e' : StatisticsEngine) → IsValid e' → Refined cs e' (run cs e'))
    → Refined (c ∷ cs) e (elim o [ none ↦ none | some e' ↦ run cs e' ])
run-cons c cs e none h f = rw h refl
run-cons c cs e (some e') h f = cons-Refined c cs e e' (run cs e') h (f e' h.1)

-- From a valid engine any sequence of calls goes through exactly if no time is measured before a
-- first point of time is there. Afterwards the engine is valid, so that it keeps fewer times than
-- it averages, and each counter is the number that the calls make of it, where a task that leaves
-- takes nothing from 0.
pub run_refines : (cs : List Call) (e : StatisticsEngine) → IsValid e → Refined cs e (run cs e)
unfolding run
run_refines [] e v = (refl, v, λ p. refl)
run_refines (c ∷ cs) e v =
    run-cons c cs e (step c e) (step-Stepped c e v) (λ e' v'. run_refines cs e' v')
