-- ===== src/Scheduler/Balance/HandOut.antt =====
-- Handing tasks out from the pool to the queues with a free slot.
use mathlib.Core.List.{Perm, perm_middle}
use mathlib.Core.List.Perm
use worker_unit.Base.{
  ℕ, zero, suc, ◌<◌, ◌≤◌, ◌≡◌, ◌⊎◌, refl, ap, ◌∙◌, subst, true, false, Option, none, some, List, [],
  ◌∷◌, ◌++◌, map, arith, length, ◌==◌, get_elem?, set, length-set, All, All-set, All-get_elem?,
  Option-cases, inl, inr,
}
use worker_unit.Scheduler.Job.{QueueJob, new_queue_job, init_job, set_cpu_time_slice}
use worker_unit.Scheduler.ThreadQueue.{
  job, ThreadQueue, Code, success, failure, add_new_task, get_total_wait_time,
}
use worker_unit.Scheduler.ThreadQueue.Slots.{sum_wait-unsliced}
use worker_unit.Scheduler.ThreadQueue.Usable.{Usable, AddedUsable, add_new_task-Usable}
use worker_unit.Scheduler.TaskPool.{TaskData, get_scheduled_task, pop_task}
use worker_unit.Scheduler.Balance.{hand_out, get_quickest_queue, get_total_empty_slots, int_max}
use worker_unit.Scheduler.Balance.Choice.{NotBelow, Quickest, get_quickest_queue-Quickest}
use worker_unit.Scheduler.Balance.Moves.{full}
use worker_unit.Scheduler.Balance.Shares.{all_jobs, all_jobs-set_cons}

-- The process type is not 0, so that the job can be made.
abbrev pub Typed : TaskData → Type 0
Typed t = 0 < t.proc_table.process_type

-- The job of a task.
abbrev pub job_of : TaskData → QueueJob
job_of t = new_queue_job t.proc_table

abbrev pub IsFull : ThreadQueue → Type 0
IsFull q = q.total_jobs_in_queue ≡ 4

init_job-made : (t : TaskData) → Typed t → init_job t.proc_table ≡ some (job_of t)
unfolding init_job set_cpu_time_slice new_queue_job
init_job-made t h = let e : (t.proc_table.process_type == 0) ≡ false = ground arith in rw e refl

unsliced : (t : TaskData) → ((job_of t).cpu_slice_ms == 0) ≡ true
unfolding new_queue_job
unsliced t = refl

-- Without slices no queue waits for as long as INT_MAX.
waits-below : (q : ThreadQueue) → Usable q → get_total_wait_time q < int_max
unfolding get_total_wait_time
waits-below q u =
    let s = sum_wait-unsliced q.slots u.unsliced u.valid.holds in
    let p = full q u.valid in let c = u.valid.counted in ground arith

none_free : (qs : List ThreadQueue) → All Usable qs → All (NotBelow int_max) qs → All IsFull qs
none_free [] u a = tt
none_free (q ∷ qs) (u, us) (a, as') =
    let w = waits-below q u in let f = full q u.valid in (ground arith, none_free qs us as')

no_slots : (qs : List ThreadQueue) → All Usable qs → get_total_empty_slots qs ≡ 0 → All IsFull qs
unfolding get_total_empty_slots
no_slots [] u e = tt
no_slots (q ∷ qs) (u, us) e = let f = full q u.valid in (omega arith, no_slots qs us (omega arith))

-- A job more is a slot less.
slots-set :
    (qs : List ThreadQueue) (i : ℕ) (q r : ThreadQueue)
    → get_elem? qs i ≡ some q
    → q.total_jobs_in_queue < 4
    → r.total_jobs_in_queue ≡ suc q.total_jobs_in_queue
    → suc (get_total_empty_slots (set qs i r)) ≡ get_total_empty_slots qs
unfolding get_total_empty_slots
slots-set [] i q r e h k = absurd (cc)
slots-set (p ∷ qs) zero q r e h k =
    let d : p.total_jobs_in_queue ≡ q.total_jobs_in_queue = cc in omega arith
slots-set (p ∷ qs) (suc i) q r e h k = omega (arith, slots-set qs i q r e h k)

-- Tasks from the front of the pool have become jobs; and either none is left or no slot is.
abbrev pub Handed :
    List TaskData → List ThreadQueue → Option (List TaskData × List ThreadQueue) → Type 0
Handed pool qs none = ⊥
Handed pool qs (some (pool', rs)) =
    All Usable rs
    × (length rs ≡ length qs)
    × ((taken : List TaskData) × (pool ≡ taken ++ pool')
        × Perm (all_jobs rs) (map job_of taken ++ all_jobs qs))
    × ((pool' ≡ []) ⊎ All IsFull rs)

Handed-none :
    (pool : List TaskData) (qs : List ThreadQueue)
    → All Usable qs
    → (pool ≡ []) ⊎ All IsFull qs
    → Handed pool qs (some (pool, qs))
Handed-none pool qs u o = (u, refl, ([], refl, Perm.refl _), o)

-- One task more in front.
Handed-one :
    (t : TaskData) (rest : List TaskData) (qs rs : List ThreadQueue)
    (o : Option (List TaskData × List ThreadQueue))
    → length rs ≡ length qs
    → Perm (all_jobs rs) (job_of t ∷ all_jobs qs)
    → Handed rest rs o
    → Handed (t ∷ rest) qs o
Handed-one t rest qs rs none l p h = h
Handed-one t rest qs rs (some (pool', ss)) l p (u, m, (taken, e, q), o) = (
  u,
  m ∙ l,
  (
    t ∷ taken,
    ap (λ x. t ∷ x) e,
    Perm.trans q (
        Perm.trans (Perm.append_left (map job_of taken) p)
          (perm_middle (map job_of taken) (all_jobs qs))),
  ),
  o,
)

-- The task at the front, once its queue took the job.
placed :
    (t : TaskData) (rest : List TaskData) (qs : List ThreadQueue) (i n : ℕ) (q : ThreadQueue)
    (c : Code × ThreadQueue)
    → All Usable qs
    → get_elem? qs i ≡ some q
    → q.total_jobs_in_queue < 4
    → get_total_empty_slots qs ≤ suc n
    → AddedUsable (job_of t) q c
    → ((rs : List ThreadQueue)
        → All Usable rs
        → get_total_empty_slots rs ≤ n
        → Handed rest rs (hand_out n rest rs))
    → Handed (t ∷ rest) qs (hand_out n rest (set qs i c.1))
placed t rest qs i n q (failure, r) u g l m (f, x) go = absurd (omega arith)
placed t rest qs i n q (success, r) u g l m (v, k, p) go =
    let s = slots-set qs i q r g l k in
    Handed-one t rest qs (set qs i r) _ (length-set qs i r)
      (all_jobs-set_cons qs i q r (job_of t) g p)
      (go (set qs i r) (All-set Usable qs i v u) (omega arith))

pub hand_out-Handed :
    (n : ℕ) (pool : List TaskData) (qs : List ThreadQueue)
    → All Typed pool
    → All Usable qs
    → get_total_empty_slots qs ≤ n
    → Handed pool qs (hand_out n pool qs)
unfolding hand_out get_scheduled_task pop_task
hand_out-Handed zero pool qs h u m = Handed-none pool qs u (inr (no_slots qs u (omega arith)))
hand_out-Handed (suc n) [] qs h u m = Handed-none [] qs u (inl refl)
hand_out-Handed (suc n) (t ∷ rest) qs (h, hs) u m = elim (Option-cases (get_quickest_queue qs)) [
  | inl e ↦
      rw (hand_out, e)
        (Handed-none (t ∷ rest) qs u
          (inr (none_free qs u (subst (Quickest qs) e (get_quickest_queue-Quickest qs)))))
  | inr (i, e) ↦
      let (q, g, l, a) = subst (Quickest qs) e (get_quickest_queue-Quickest qs) in
      let v : Usable q = All-get_elem? Usable qs i g u in
      rw (hand_out, e, init_job-made t h, g)
        (placed t rest qs i n q (add_new_task (job (job_of t)) q) u g l m
          (add_new_task-Usable (job_of t) q (unsliced t) v) (λ rs. hand_out-Handed n rest rs hs))
]
