-- ===== src/Scheduler/Balance/Theft.antt =====
-- A job that is moved to another queue between `getNextTask` and the mark JOB_RUNNING.
use worker_unit.Base.{
  ℕ, suc, ◌+◌, ◌*◌, ◌≡◌, refl, sym, ap, ◌∙◌, subst, true, false, none, some, List, ◌∷◌, ◌++◌, arith,
  length, All, if_true, ltb,
}
use worker_unit.Scheduler.Job.{QueueJob}
use worker_unit.Scheduler.ThreadQueue.{
  job, Slot, ThreadQueue, success, failure, add_new_task, slot_at, get_next_task, pop_job,
  mark_task_as_complete, get_total_wait_time,
}
use worker_unit.Scheduler.ThreadQueue.Slots.{pending, all_unsliced, sum_wait-unsliced}
use worker_unit.Scheduler.ThreadQueue.Taking.{Stays}
use worker_unit.Scheduler.ThreadQueue.Invariant.{
  IsValid, Added, add_new_task-Added, Popped, pop_job-Popped, get_next_task-IsValid,
}
use worker_unit.Scheduler.Balance.{popped, move_jobs}
use worker_unit.Scheduler.Balance.Moves.{Ready, add-unsliced, PopUnsliced, pop-unsliced}
use worker_unit.Scheduler.ThreadQueue.Single.{
  occupied, free_slot, Unmarked, no_more, with_first, add_to_empty, gets_first, without,
  pop_between, head-free, mark_nothing, split_slots, fetches,
}

-- Without slices the waiting time counts the jobs.
wait-total :
    (q : ThreadQueue)
    → IsValid q
    → all_unsliced q.slots ≡ true
    → get_total_wait_time q ≡ 999 * q.total_jobs_in_queue
unfolding get_total_wait_time
wait-total q v u = ground (arith, sum_wait-unsliced q.slots u v.holds)

move_step :
    (fuel : ℕ) (idle idle' busy busy' : ThreadQueue) (j : QueueJob)
    → pop_job busy ≡ (job j, busy')
    → add_new_task (job j) idle ≡ (success, idle')
    → ltb (get_total_wait_time idle) (get_total_wait_time busy) ≡ true
    → move_jobs (suc fuel) idle busy ≡ move_jobs fuel idle' busy'
unfolding move_jobs
move_step fuel idle idle' busy busy' j p a l =
    if_true _ _ _ l
    ∙ ap
        (λ r. popped r.0 (elim (add_new_task r.0 idle).0 [
          | success ↦ move_jobs fuel (add_new_task r.0 idle).1 r.1
          | failure ↦ some (true, (add_new_task r.0 idle).1, r.1)
        ]))
        p
    ∙ ap (λ c. elim c.0 [ success ↦ move_jobs fuel c.1 busy' | failure ↦ some (true, c.1, busy') ])
        a

move_stops :
    (fuel : ℕ) (idle busy : ThreadQueue)
    → ltb (get_total_wait_time idle) (get_total_wait_time busy) ≡ false
    → move_jobs (suc fuel) idle busy ≡ some (true, idle, busy)
unfolding move_jobs
move_stops fuel idle busy l = rw l refl

-- What a rebalancing of the two queues comes to after the thread of the busy one has got the job.
abbrev pub Stolen : QueueJob → ThreadQueue → ThreadQueue → Type 0
Stolen j idle busy =
    let (c, fetched) = get_next_task busy in
    (c ≡ job j)
    × (idle' : ThreadQueue) × (busy' : ThreadQueue) × (move_jobs (fetched.total_jobs_in_queue + 1)
          idle fetched
        ≡ some (true, idle', busy'))
    × ((get_next_task idle').0 ≡ job j)
    × (slot_at busy'.slots busy'.head ≡ free_slot)
    × (mark_task_as_complete busy' ≡ none)

-- The move of the only job that has to be moved.
moves_one :
    (j : QueueJob) (idle idle' busy busy' : ThreadQueue)
    → Ready idle busy
    → pop_job busy ≡ (job j, busy')
    → add_new_task (job j) idle ≡ (success, idle')
    → idle.total_jobs_in_queue ≡ 0
    → busy.total_jobs_in_queue ≡ 2
    → move_jobs (busy.total_jobs_in_queue + 1) idle busy ≡ some (true, idle', busy')
moves_one j idle idle' busy busy' r p a z t =
    let (n, bv, f, g, x, o) = subst (Popped busy) p (pop_job-Popped busy r.busy_valid) in
    let (m, k, iv, y) = subst (Added j idle) a (add_new_task-Added j idle r.idle_valid) in
    let (bu, c) = subst PopUnsliced p (pop-unsliced busy r.busy_unsliced) in
    let iu =
      subst (λ q. all_unsliced q.1.slots ≡ true) a
        (add-unsliced j idle (c j refl) r.idle_unsliced) in
    ap (λ f. move_jobs f idle busy) (omega (arith, t))
    ∙ move_step 2 idle idle' busy busy' j p a (
        ground (
          arith,
          wait-total idle r.idle_valid r.idle_unsliced,
          wait-total busy r.busy_valid r.busy_unsliced,
        ))
    ∙ move_stops 1 idle' busy' (ground (arith, wait-total idle' iv iu, wait-total busy' bv bu))

-- Between `getNextTask`, which has given a job to the task thread and released the lock, and the
-- mark JOB_RUNNING, which the thread sets afterwards, a rebalancing may move this job away. If the
-- busy queue has two jobs, neither queue's jobs have a time slice, the job is not marked, and no slot
-- before it has an unmarked job, then rebalancing with an empty queue has defined behaviour and gives
-- the same job to the other queue's thread. The head slot of the first queue is free and null then,
-- and there `markTaskAsComplete` has undefined behaviour.
pub move_jobs-Stolen :
    (j : QueueJob) (xs ys : List Slot) (idle busy : ThreadQueue)
    → Ready idle busy
    → idle.total_jobs_in_queue ≡ 0
    → busy.total_jobs_in_queue ≡ 2
    → (get_next_task busy).1.head ≡ length xs
    → busy.slots ≡ xs ++ (occupied j ∷ ys)
    → All Stays xs
    → Unmarked j
    → Stolen j idle busy
unfolding get_next_task
move_jobs-Stolen j xs ys idle busy r z t h e a u =
    let fetched = (get_next_task busy).1 in
    let (s, ss, q) = split_slots idle.slots r.idle_valid.four in
    let p : pending idle.slots ≡ 0 = sym r.idle_valid.counted ∙ z in
    let rest : pending ss ≡ 0 = no_more s ss (ap pending (sym q) ∙ p) in
    let ready : Ready idle fetched = record {
      idle_valid = r.idle_valid;
      busy_valid = get_next_task-IsValid busy r.busy_valid;
      idle_unsliced = r.idle_unsliced;
      busy_unsliced = r.busy_unsliced;
    } in
    (
      fetches j xs ys busy r.busy_valid h e,
      with_first j ss idle,
      without xs ys fetched,
      moves_one j idle (with_first j ss idle) fetched (without xs ys fetched) ready
          (pop_between j xs ys fetched e u a) (add_to_empty j idle s ss q p) z t,
      gets_first j (with_first j ss idle) ss r.idle_valid.head_in refl rest,
      head-free xs ys fetched h,
      mark_nothing xs ys fetched h,
    )
