-- ===== src/Scheduler/ThreadQueue/Invariant.antt =====
-- The invariant of a thread queue, and what each operation promises under it.
use mathlib.Core.List.{Perm}
use worker_unit.Base.{
  suc, ◌<◌, ◌≡◌, refl, sym, subst, true, false, Option, none, some, List, ◌∷◌, arith, length, All,
}
use worker_unit.Scheduler.Job.{QueueJob, is_job_status_set, job_running, job_finalized}
use worker_unit.Scheduler.ThreadQueue.{
  Cell, unset, null, job, Slot, ThreadQueue, Code, success, failure, add_new_task, pop_job,
  get_next_task, queue_size, fill_slot, take_slot, after_fill, after_take,
}
use worker_unit.Scheduler.ThreadQueue.Slots.{
  pending, all_hold, jobs, pending-le-length, Filled, fill_slot-Filled,
}
use worker_unit.Scheduler.ThreadQueue.Taking.{Taken, take_slot-Taken, Stays, First}
use worker_unit.Scheduler.ThreadQueue.Rotation.{scan-lt-four}

pub record IsValid (q : ThreadQueue) : Type 0 where
  pub four : length q.slots ≡ 4
  pub head_in : q.head < 4
  pub counted : q.total_jobs_in_queue ≡ pending q.slots
  pub holds : all_hold q.slots ≡ true

abbrev pub queued : ThreadQueue → List QueueJob
queued q = jobs q.slots

abbrev pub Added : QueueJob → ThreadQueue → Code × ThreadQueue → Type 0
Added j q (success, r) =
    (q.total_jobs_in_queue < 4)
    × (r.total_jobs_in_queue ≡ suc q.total_jobs_in_queue)
    × IsValid r
    × Perm (queued r) (j ∷ queued q)
Added j q (failure, r) = (q.total_jobs_in_queue ≡ 4) × (r ≡ q)

add_case :
    (j : QueueJob) (q : ThreadQueue) (r : Option (List Slot))
    → IsValid q
    → Filled j q.slots r
    → Added j q (after_fill q r)
add_case j q none v f = (omega arith, refl)
add_case j q (some ss) v f = (
  omega (arith, pending-le-length ss),
  omega arith,
  record { four = omega arith; head_in = v.head_in; counted = omega arith; holds = f.2 v.holds },
  f.3,
)

-- `addNewTask` on a valid queue: it fails exactly when four jobs are queued, and then changes
-- nothing; otherwise the queue stays valid and holds the new job besides those it held.
pub add_new_task-Added :
    (j : QueueJob) (q : ThreadQueue) → IsValid q → Added j q (add_new_task (job j) q)
unfolding add_new_task
add_new_task-Added j q v = add_case j q (fill_slot j q.slots) v (fill_slot-Filled j q.slots)

abbrev pub Popped : ThreadQueue → Cell × ThreadQueue → Type 0
Popped q (null, r) = (r ≡ q) × All Stays q.slots
Popped q (unset, r) = ⊥
Popped q (job j, r) =
    (q.total_jobs_in_queue ≡ suc r.total_jobs_in_queue)
    × IsValid r
    × (is_job_status_set job_running j ≡ false)
    × (is_job_status_set job_finalized j ≡ false)
    × Perm (queued q) (j ∷ queued r)
    × First j q.slots r.slots

job-injective : {i j : QueueJob} → job i ≡ job j → i ≡ j
job-injective e = cc

pop_case :
    (q : ThreadQueue) (r : Option (Cell × List Slot))
    → IsValid q
    → Taken q.slots r
    → Popped q (after_take q r)
pop_case q none v t = (refl, t)
pop_case q (some (null, ss)) v (l, p, h, (j, e, n, f, m, o)) = cc
pop_case q (some (unset, ss)) v (l, p, h, (j, e, n, f, m, o)) = cc
pop_case q (some (job i, ss)) v (l, p, h, (j, e, n, f, m, o)) = (
  omega arith,
  record { four = omega arith; head_in = v.head_in; counted = omega arith; holds = h v.holds },
  subst (λ k. is_job_status_set job_running k ≡ false) (job-injective (sym e)) n,
  subst (λ k. is_job_status_set job_finalized k ≡ false) (job-injective (sym e)) f,
  subst (λ k. Perm (queued q) (k ∷ jobs ss)) (job-injective (sym e)) m,
  subst (λ k. First k q.slots ss) (job-injective (sym e)) o,
)

-- `popJob` on a valid queue has defined behaviour. It takes the job out of the first slot with one
-- that was never started nor finalized, and leaves that slot free with a null pointer, all other
-- slots as they were, and the queue valid; or there is no such job, and it returns null and changes
-- nothing.
pub pop_job-Popped : (q : ThreadQueue) → IsValid q → Popped q (pop_job q)
unfolding pop_job
pop_job-Popped q v = pop_case q (take_slot q.slots) v (take_slot-Taken q.slots v.holds)

pub get_next_task-IsValid : (q : ThreadQueue) → IsValid q → IsValid (get_next_task q).1
unfolding get_next_task
get_next_task-IsValid q v = record {
  four = v.four;
  head_in = scan-lt-four queue_size q.slots q.head v.head_in;
  counted = v.counted;
  holds = v.holds;
}
