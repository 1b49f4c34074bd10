-- ===== src/Statistics/Timers.antt =====
-- What the measured times are measured from.
use worker_unit.Base.{
  ℕ, ◌≡◌, ◌-◌, ◌/◌, refl, sym, ap, subst, ◌∙◌, Option, none, some, List, [], ◌∷◌, ◌++◌, arith,
  length, Bool, true, false, ◌==◌, Bool-cases, inl, inr,
}
use worker_unit.Scheduler.Job.{priority_number}
use worker_unit.Statistics.{
  TaskStatus, task_in, task_out, StatisticsEngine, to_int, with_time, is_full, averaged_if,
  record_time, update_timer_before, update_timer_after, count_task, update_thread_stats,
}
use worker_unit.Statistics.Counters.{
  Call, step, run, timer_before, timer_after, thread_stats, IsValid, Stepped, step-Stepped,
  average-keeps, pop_front_lem, value, get_elem?-value, priority_number-lt,
}

-- The list of points of time begins with `t`.
abbrev pub From : ℕ → Option StatisticsEngine → Type 0
From t none = ⊥
From t (some e) = (us : List ℕ) × (e.time_before ≡ t ∷ us)

averaged-From :
    (b : Bool) (t : ℕ) (ts : List ℕ) (e : StatisticsEngine)
    → e.time_before ≡ t ∷ ts
    → From t (some (averaged_if b e))
averaged-From true t ts e h = (ts, (average-keeps e).2 ∙ h)
averaged-From false t ts e h = (ts, h)

count-From :
    (n i t : ℕ) (s : TaskStatus) (ts : List ℕ) (e : StatisticsEngine)
    → e.time_before ≡ t ∷ ts
    → From t (count_task (some n) i s e)
unfolding count_task
count-From n i t task_in ts e h = (ts, h)
count-From n i t task_out ts e h = elim (Bool-cases (n == 0)) [
  | inl z ↦ rw z (ts, h)
  | inr z ↦ rw z (ts, h)
]

step-From :
    (c : Call) (t : ℕ) (ts : List ℕ) (e : StatisticsEngine)
    → length e.task_count_vector ≡ 4
    → e.time_before ≡ t ∷ ts
    → From t (step c e)
unfolding step update_timer_before update_timer_after record_time with_time update_thread_stats
step-From (timer_before now) t ts e f h = (ts ++ (now ∷ []), ap (λ l. l ++ (now ∷ [])) h)
step-From (timer_after now) t ts e f h =
    subst (λ l. From t (record_time l now e)) (sym h)
      (averaged-From (is_full (with_time now t ts e)) t ts (with_time now t ts e)
        (pop_front_lem t ts))
step-From (thread_stats q s) t ts e f h =
    subst (λ o. From t (count_task o (priority_number q) s e))
      (sym (
        get_elem?-value e.task_count_vector (priority_number q)
          (omega (arith, f, priority_number-lt q))))
      (count-From (value e.task_count_vector (priority_number q)) (priority_number q) t s ts e h)

run-From_cons :
    (t : ℕ) (cs : List Call) (e : StatisticsEngine) (c : Call) (o : Option StatisticsEngine)
    → Stepped c e o
    → From t o
    → ((e' : StatisticsEngine) (ts : List ℕ)
        → IsValid e'
        → e'.time_before ≡ t ∷ ts
        → From t (run cs e'))
    → From t (elim o [ none ↦ none | some e' ↦ run cs e' ])
run-From_cons t cs e c none h k f = k
run-From_cons t cs e c (some e') h (us, k) f = f e' us h.1 k

-- The next time is the one from `t` to `now`, in milliseconds, behind the times that were kept.
abbrev pub MeasuresFrom : ℕ → Option StatisticsEngine → Type 0
MeasuresFrom t none = ⊥
MeasuresFrom t (some e) =
    ((us : List ℕ) × (e.time_before ≡ t ∷ us))
    × ((now : ℕ)
        → (x : StatisticsEngine) × (step (timer_after now) e ≡ some (averaged_if (is_full x) x))
          × (x.queue_time_vector ≡ e.queue_time_vector ++ (to_int ((now - t) / 1_000_000) ∷ []))
          × (x.time_after ≡ now))

From-MeasuresFrom : (t : ℕ) (o : Option StatisticsEngine) → From t o → MeasuresFrom t o
unfolding step update_timer_after record_time with_time
From-MeasuresFrom t none f = f
From-MeasuresFrom t (some e) (us, h) =
    ((us, h), λ now. (with_time now t us e, ap (λ l. record_time l now e) h, refl, refl))

run-From :
    (cs : List Call) (t : ℕ) (ts : List ℕ) (e : StatisticsEngine)
    → IsValid e
    → e.time_before ≡ t ∷ ts
    → From t (run cs e)
unfolding run
run-From [] t ts e v h = (ts, h)
run-From (c ∷ cs) t ts e v h =
    run-From_cons t cs e c (step c e) (step-Stepped c e v) (step-From c t ts e v.four h)
      (λ e' us w k. run-From cs t us e' w k)

-- Once the engine has a first point of time `t`, no call fails, and after any calls `t` is still the
-- first: whenever a time is then measured, it is the one from `t`, since a point of time is never
-- taken from the list. It goes behind the times that were kept, which become one average when they
-- are as many as the engine averages.
pub run-MeasuresFrom :
    (cs : List Call) (t : ℕ) (ts : List ℕ) (e : StatisticsEngine)
    → IsValid e
    → e.time_before ≡ t ∷ ts
    → MeasuresFrom t (run cs e)
run-MeasuresFrom cs t ts e v h = From-MeasuresFrom t (run cs e) (run-From cs t ts e v h)
