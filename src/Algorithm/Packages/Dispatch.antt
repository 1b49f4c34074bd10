-- ===== src/Algorithm/Packages/Dispatch.antt =====
-- What becomes of the jobs of a table in the task pool.
use mathlib.Core.List.{append_assoc, append-nil}
use worker_unit.Base.{
  ℕ, zero, suc, ◌+◌, ◌<◌, ◌≤◌, ltb, ◌==◌, Bool-cases, ◌≡◌, ◌⊎◌, inl, inr, refl, sym, ap, subst, ◌∙◌,
  true, Option, none, some, List, [], ◌∷◌, ◌++◌, map, length, All, arith,
}
use worker_unit.Scheduler.Job.{ProcessTable, TaskPriority, priority_number}
use worker_unit.Scheduler.TaskPool.{Scheduling, schedule_task}
use worker_unit.Scheduler.TaskPool.Order.{IsSorted, waiting}
use worker_unit.Scheduler.TaskPool.Schedule.{schedule_task-Scheduled, new_table}
use worker_unit.Base.Text.{Bytes}
use worker_unit.Instances.{Instance, get_instance_from_id}
use worker_unit.Algorithm.Split.{
  AlgorithmCall, AlgorithmPackage, TableData, call_for, split_ranges, sched_algo,
}
use worker_unit.Algorithm.Split.Ranges.{split_ranges-Tiles}
use worker_unit.Algorithm.Packages.{
  avial_algo, ce_algorithm, schedule_package, schedule_calls, kept_or,
}

-- A table of a job that computes.
abbrev pub Computes : TaskPriority → ProcessTable → Type 0
Computes priority t = (t.process_type ≡ 4) × (t.priority ≡ priority)

-- The new tables wait behind those that waited with their priority, in an ordered pool.
abbrev pub Queued : TaskPriority → ℕ → Scheduling → Scheduling → Type 0
Queued priority n s r =
    IsSorted r.pool
    × (ts : List ProcessTable) × (waiting (priority_number priority) r.pool
        ≡ waiting (priority_number priority) s.pool ++ ts)
    × (length ts ≡ n)
    × All (Computes priority) ts

module _ (garbage counter : ℕ → ℕ) (draws : ℕ → List ℕ) where
  refused :
      (i : ℕ) (c : AlgorithmCall) (s : Scheduling)
      → schedule_package garbage counter draws i c (avial_algo 0) s ≡ s
  unfolding schedule_package avial_algo kept_or schedule_task
  refused i c s = refl

  -- The table of a call's process.
  abbrev queued_table : ℕ → AlgorithmCall → Scheduling → ProcessTable
  queued_table i c s = new_table (garbage i) (counter i) (draws i) ce_algorithm c.priority s

  accepted :
      (i : ℕ) (c : AlgorithmCall) (s : Scheduling)
      → IsSorted s.pool
      → let r = schedule_package garbage counter draws i c (avial_algo 1) s in
        IsSorted r.pool
        × (waiting (priority_number c.priority) r.pool
            ≡ waiting (priority_number c.priority) s.pool ++ (queued_table i c s ∷ []))
  unfolding schedule_package avial_algo kept_or schedule_task
  accepted i c s h =
      let (a, b, e, w, v, n) =
        schedule_task-Scheduled (garbage i) (counter i) (draws i) ce_algorithm c.priority s true
          h in
      (b, w)

  module _ (t : TableData) where
    all_refused :
        (i : ℕ) (rs : List (ℕ × ℕ)) (s : Scheduling)
        → schedule_calls garbage counter draws i (map (call_for 0 t) rs) s ≡ s
    unfolding schedule_calls call_for
    all_refused i [] s = refl
    all_refused i (r ∷ rs) s =
        ap (schedule_calls garbage counter draws (i + 1) (map (call_for 0 t) rs))
          (refused i (call_for 0 t r) s)
        ∙ all_refused (i + 1) rs s

    all-Queued :
        (i : ℕ) (rs : List (ℕ × ℕ)) (s : Scheduling)
        → IsSorted s.pool
        → Queued t.priority
            (length rs)
            s
            (schedule_calls garbage counter draws i (map (call_for 1 t) rs) s)
    unfolding schedule_calls call_for
    all-Queued i [] s h =
        (h, [], sym (append-nil (waiting (priority_number t.priority) s.pool)), refl, tt)
    all-Queued i (r ∷ rs) s h =
        let c = call_for 1 t r in
        let (a, w) = accepted i c s h in
        let (b, us, x, m, j) =
          all-Queued (i + 1) rs (schedule_package garbage counter draws i c (avial_algo 1) s) a in
        (
          b,
          queued_table i c s ∷ us,
          x
              ∙ ap (λ l. l ++ us) w
              ∙ append_assoc (waiting (priority_number t.priority) s.pool) (queued_table i c s ∷ [])
                  us,
          ap suc m,
          ((refl, refl), j),
        )

    -- The number of the algorithm that the table's instance names.
    abbrev pub algorithm : List Instance → ℕ
    algorithm instances = (get_instance_from_id t.instance_type instances).linked_algorithm

    by_algorithm :
        (k threads : ℕ) (s : Scheduling)
        → k < 2
        → 0 < threads
        → IsSorted s.pool
        → let r =
            schedule_calls garbage counter draws 0
              (map (call_for k t) (split_ranges threads t.rows))
              s in
          ((k ≡ 0) × (r ≡ s)) ⊎ ((k ≡ 1) × Queued t.priority threads s r)
    by_algorithm zero threads s a b h = inl (refl, all_refused 0 (split_ranges threads t.rows) s)
    by_algorithm (suc zero) threads s a b h =
        let parts = split_ranges threads t.rows in
        inr (
          refl,
          subst
              (λ n.
                Queued t.priority n s
                  (schedule_calls garbage counter draws 0 (map (call_for 1 t) parts) s))
              (split_ranges-Tiles threads t.rows b).0 (all-Queued 0 parts s h),
        )
    by_algorithm (suc (suc k)) threads s a b h = absurd (omega arith)

    -- What `sched_algo` makes of the pool, by its result.
    abbrev pub Dispatched :
        {R : Type 0}
        → ℕ
        → List Instance
        → Scheduling
        → Option (List AlgorithmCall × List (Bytes × AlgorithmPackage R))
        → Type 0
    Dispatched threads instances s none = (threads ≡ 0) ⊎ (2 ≤ algorithm instances)
    Dispatched threads instances s (some (calls, m)) =
        ((algorithm instances ≡ 0) × (schedule_calls garbage counter draws 0 calls s ≡ s))
        ⊎ ((algorithm instances ≡ 1)
            × Queued t.priority threads s (schedule_calls garbage counter draws 0 calls s))

    -- With an ordered pool, the jobs of a table are dispatched as the linked algorithm says. The example
    -- algorithm, with the number 0, leaves the process manager and the pool as they were. Candidate
    -- elimination, with the number 1, has as many new processes wait behind those of the table's priority as
    -- there are threads, in a pool that is ordered again. The other outcome is undefined behaviour, for no
    -- threads or another number.
    pub sched_algo-Dispatched :
        {R : Type 0}
        → (threads : ℕ) (instances : List Instance) (m : List (Bytes × AlgorithmPackage R))
          (s : Scheduling)
        → IsSorted s.pool
        → Dispatched threads instances s (sched_algo threads instances t m)
    unfolding sched_algo
    sched_algo-Dispatched threads instances m s h = elim (Bool-cases (threads == 0)) [
      | inl e ↦ rw e (inl (ground arith))
      | inr e ↦ elim (Bool-cases (ltb (algorithm instances) 2)) [
        | inr f ↦ rw (e, f) (inr (ground arith))
        | inl f ↦
            rw (e, f) (by_algorithm (algorithm instances) threads s (ground arith) (ground arith) h)
      ]
    ]
