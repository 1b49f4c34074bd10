-- ===== src/Scheduler/Balance/Moves.antt =====
-- Rebalancing moves jobs and loses none.
use mathlib.Core.List.{Perm, perm_middle}
use mathlib.Core.List.Perm
use worker_unit.Base.{
  ℕ, zero, suc, ◌+◌, ◌≤◌, ◌<◌, ◌≡◌, refl, Bool, true, Option, none, some, List, ◌∷◌, ◌++◌, arith,
  inl, inr, ltb, ◌==◌, Bool-cases,
}
use worker_unit.Scheduler.Job.{QueueJob}
use worker_unit.Scheduler.ThreadQueue.{
  Cell, null, unset, job, ThreadQueue, Code, success, failure, add_new_task, pop_job,
  get_total_wait_time, Slot, fill_slot, take_slot, after_fill, after_take,
}
use worker_unit.Scheduler.ThreadQueue.Slots.{
  pending-le-length, all_unsliced, fill_slot-unsliced, FilledUnsliced, sum_wait-unsliced,
}
use worker_unit.Scheduler.ThreadQueue.Taking.{TakenUnsliced, take_slot-unsliced}
use worker_unit.Scheduler.ThreadQueue.Invariant.{
  IsValid, queued, Added, add_new_task-Added, Popped, pop_job-Popped,
}
use worker_unit.Scheduler.Balance.{popped, move_jobs}

-- The jobs of the two queues.
abbrev pub both : ThreadQueue → ThreadQueue → List QueueJob
both p q = queued p ++ queued q

abbrev pub Moved : ThreadQueue → ThreadQueue → Option (Bool × ThreadQueue × ThreadQueue) → Type 0
Moved idle busy none = ⊥
Moved idle busy (some (ended, idle', busy')) =
    (ended ≡ true)
    × IsValid idle'
    × IsValid busy'
    × (idle'.total_jobs_in_queue + busy'.total_jobs_in_queue
        ≡ idle.total_jobs_in_queue + busy.total_jobs_in_queue)
    × Perm (both idle' busy') (both idle busy)

pub add-unsliced :
    (j : QueueJob) (q : ThreadQueue)
    → (j.cpu_slice_ms == 0) ≡ true
    → all_unsliced q.slots ≡ true
    → all_unsliced (add_new_task (job j) q).1.slots ≡ true
unfolding add_new_task
add-unsliced j q e h = go (fill_slot j q.slots) (fill_slot-unsliced j q.slots e h)
  where
    go : (r : Option (List Slot)) → FilledUnsliced r → all_unsliced (after_fill q r).1.slots ≡ true
    go none f = h
    go (some ss) f = f

abbrev pub PopUnsliced : Cell × ThreadQueue → Type 0
PopUnsliced (c, r) =
    (all_unsliced r.slots ≡ true) × ((j : QueueJob) → c ≡ job j → (j.cpu_slice_ms == 0) ≡ true)

pub pop-unsliced : (q : ThreadQueue) → all_unsliced q.slots ≡ true → PopUnsliced (pop_job q)
unfolding pop_job
pop-unsliced q h = go (take_slot q.slots) (take_slot-unsliced q.slots h)
  where
    go : (r : Option (Cell × List Slot)) → TakenUnsliced r → PopUnsliced (after_take q r)
    go none t = (h, λ j e. cc)
    go (some (unset, ss)) t = (h, λ j e. cc)
    go (some (null, ss)) t = (h, λ j e. cc)
    go (some (job j, ss)) t = t

-- The queue that waits less has fewer jobs.
pub shorter :
    {p q : ThreadQueue}
    → IsValid p
    → IsValid q
    → all_unsliced p.slots ≡ true
    → all_unsliced q.slots ≡ true
    → ltb (get_total_wait_time p) (get_total_wait_time q) ≡ true
    → p.total_jobs_in_queue < q.total_jobs_in_queue
unfolding get_total_wait_time
shorter {p} {q} v w h k e =
    ground (arith, sum_wait-unsliced p.slots h v.holds, sum_wait-unsliced q.slots k w.holds)

-- The invariant of the inner loop: two valid queues whose jobs have no slice.
pub record Ready (idle busy : ThreadQueue) : Type 0 where
  pub idle_valid : IsValid idle
  pub busy_valid : IsValid busy
  pub idle_unsliced : all_unsliced idle.slots ≡ true
  pub busy_unsliced : all_unsliced busy.slots ≡ true

Moved-refl : {idle busy : ThreadQueue} → Ready idle busy → Moved idle busy (some (true, idle, busy))
Moved-refl r = (refl, r.idle_valid, r.busy_valid, refl, Perm.refl _)

-- A job that goes from one list to the other.
pub shift-perm :
    {xs xs' ys ys' : List QueueJob} {j : QueueJob}
    → Perm xs' (j ∷ xs)
    → Perm ys (j ∷ ys')
    → Perm (xs' ++ ys') (xs ++ ys)
shift-perm {xs} {xs'} {ys} {ys'} {j} p q =
    Perm.trans (Perm.append p (Perm.refl ys'))
      (Perm.trans (Perm.symm (perm_middle xs ys')) (Perm.append (Perm.refl xs) (Perm.symm q)))

pub full : (q : ThreadQueue) → IsValid q → q.total_jobs_in_queue ≤ 4
full q v = omega (arith, pending-le-length q.slots, v.counted, v.four)

-- One round in which a job was popped.
Moved-one :
    (fuel : ℕ) (idle busy : ThreadQueue) (j : QueueJob) (busy' : ThreadQueue)
    (r : Code × ThreadQueue)
    → Ready idle busy
    → ltb (get_total_wait_time idle) (get_total_wait_time busy) ≡ true
    → Popped busy (job j, busy')
    → Added j idle r
    → (rest : Option (Bool × ThreadQueue × ThreadQueue))
    → ((code : r.0 ≡ success) → Moved r.1 busy' rest)
    → Moved idle busy (elim r.0 [ success ↦ rest | failure ↦ some (true, r.1, busy') ])
Moved-one fuel idle busy j busy' (failure, i) v e p (x, a) rest go =
    let s = shorter v.idle_valid v.busy_valid v.idle_unsliced v.busy_unsliced e in
    absurd (omega (arith, full busy v.busy_valid))
Moved-one fuel idle busy j busy' (success, i) v e p (x, n, w, perm) none go = go refl
Moved-one fuel idle busy j busy' (success, i) v e p (x, n, w, perm) (some (ended, i', b')) go =
    let (d, vi, vb, t, m) = go refl in (d, vi, vb, omega arith, Perm.trans m (shift-perm perm p.4))

Added-IsValid :
    (j : QueueJob) (q : ThreadQueue) (r : Code × ThreadQueue)
    → Added j q r
    → r.0 ≡ success
    → IsValid r.1
Added-IsValid j q (success, i) (x, n, w, perm) e = w
Added-IsValid j q (failure, i) a e = cc

-- With more fuel than the busy queue has jobs the inner loop ends by itself, with defined behaviour;
-- both queues stay valid and hold the jobs that they held before, no one lost or doubled.
pub move_jobs-Moved :
    (fuel : ℕ) (idle busy : ThreadQueue)
    → Ready idle busy
    → busy.total_jobs_in_queue < fuel
    → Moved idle busy (move_jobs fuel idle busy)
unfolding move_jobs add_new_task
move_jobs-Moved zero idle busy v h = absurd (omega arith)
move_jobs-Moved (suc fuel) idle busy v h =
    elim (Bool-cases (ltb (get_total_wait_time idle) (get_total_wait_time busy))) [
      | inr e ↦ rw e (Moved-refl v)
      | inl e ↦ rw e (
          round (pop_job busy) (pop_job-Popped busy v.busy_valid)
            (pop-unsliced busy v.busy_unsliced) e (move_jobs-Moved fuel))
    ]
  where
    round :
        (r : Cell × ThreadQueue)
        → Popped busy r
        → PopUnsliced r
        → ltb (get_total_wait_time idle) (get_total_wait_time busy) ≡ true
        → ((p q : ThreadQueue)
            → Ready p q
            → q.total_jobs_in_queue < fuel
            → Moved p q (move_jobs fuel p q))
        → Moved idle busy (
            popped r.0 (elim (add_new_task r.0 idle).0 [
              | success ↦ move_jobs fuel (add_new_task r.0 idle).1 r.1
              | failure ↦ some (true, (add_new_task r.0 idle).1, r.1)
            ]))
    round (null, q) p u e go = rw p.0 (Moved-refl v)
    round (unset, q) p u e go = absurd p
    round (job j, q) p u e go =
        Moved-one fuel idle busy j q (add_new_task (job j) idle) v e p
          (add_new_task-Added j idle v.idle_valid) _
          (λ s.
            go _ q
              (record {
                idle_valid =
                    Added-IsValid j idle (add_new_task (job j) idle)
                      (add_new_task-Added j idle v.idle_valid) s;
                busy_valid = p.1;
                idle_unsliced = add-unsliced j idle (u.1 j refl) v.idle_unsliced;
                busy_unsliced = u.0;
              })
              (omega arith))
