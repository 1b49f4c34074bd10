-- ===== src/Scheduler/Worker/Failing.antt =====
-- A job that only ever fails is started again.
use worker_unit.Base.{
  ℕ, zero, suc, ◌+◌, ◌%◌, ◌<◌, ◌≡◌, ◌⊎◌, inl, inr, refl, ap, ◌∙◌, Bool, true, false, not, ◌&&◌,
  ◌||◌, Option, some, List, [], ◌∷◌, arith, set, Bool-cases,
}
use worker_unit.Scheduler.Job.{
  job_running, job_pending, job_failed, job_done, QueueJob, set_job_status, is_job_status_set,
}
use worker_unit.Scheduler.Registry.{ProcessManager}
use worker_unit.Scheduler.ThreadQueue.{
  Cell, unset, null, job, Slot, ThreadQueue, slot_at, scan, get_next_task, queue_size,
}
use worker_unit.Scheduler.ThreadQueue.Rotation.{get_next_task_approaches}
use worker_unit.Scheduler.ThreadQueue.Slots.{pending}
use worker_unit.Scheduler.Worker.{
  start_proc, JobTimer, init_timer, Round, Leave, after_start, run_rounds, tick, Turn, idle,
  running, undefined, turned, run_job, take_turn, thread_turn, store_job, after_run,
}
use worker_unit.Scheduler.Worker.Turns.{run_rounds-cons}

-- A slot that is free, or holds a job that is neither done nor pending.
abbrev pub is_failing : Slot → Bool
is_failing s = s.is_done || (elim s.cell [
  | job j ↦ not (is_job_status_set job_pending j) && not (is_job_status_set job_done j)
  | _ ↦ false
])

abbrev pub all_failing : List Slot → Bool
all_failing [] = true
all_failing (s ∷ ss) = is_failing s && all_failing ss

set-failing :
    (ss : List Slot) (h : ℕ) (s : Slot)
    → (slot_at ss h).is_done ≡ false
    → s.is_done ≡ false
    → is_failing s ≡ true
    → all_failing ss ≡ true
    → (all_failing (set ss h s) ≡ true) × (pending (set ss h s) ≡ pending ss)
set-failing [] h s o e f a = (refl, refl)
set-failing (x ∷ ss) zero s o e f a = (ground arith, ground arith)
set-failing (x ∷ ss) (suc h) s o e f a =
    let r = set-failing ss h s o e f (ground arith) in (ground arith, ground arith)

failing_slot :
    (is_done : Bool) (c : Cell)
    → is_done ≡ false
    → is_failing (record { is_done = is_done; cell = c }) ≡ true
    → (j : QueueJob) × (c ≡ job j)
      × (is_job_status_set job_pending j ≡ false)
      × (is_job_status_set job_done j ≡ false)
failing_slot is_done unset o f = absurd (ground arith)
failing_slot is_done null o f = absurd (ground arith)
failing_slot is_done (job j) o f = (j, refl, ground arith, ground arith)

failing_at :
    (ss : List Slot) (h : ℕ)
    → (slot_at ss h).is_done ≡ false
    → all_failing ss ≡ true
    → is_failing (slot_at ss h) ≡ true
failing_at [] h o a = cc
failing_at (x ∷ ss) zero o a = ground arith
failing_at (x ∷ ss) (suc h) o a = failing_at ss h o (ground arith)

scan_finds :
    (n : ℕ) (ss : List Slot) (h : ℕ)
    → let (h', c) = scan n ss h in
      (c ≡ null) ⊎ (((slot_at ss h').is_done ≡ false) × (c ≡ (slot_at ss h').cell))
unfolding scan
scan_finds zero ss h = inl refl
scan_finds (suc n) ss h = elim (Bool-cases (slot_at ss ((h + 1) % 4)).is_done) [
  | inl e ↦ rw e (scan_finds n ss ((h + 1) % 4))
  | inr e ↦ rw e (inr (e, refl))
]

after_start-failed :
    (t : JobTimer) (j : QueueJob) (unused : List Round) (again : Option Leave)
    → is_job_status_set job_pending j ≡ false
    → let j' = set_job_status job_failed j in
      after_start t j' unused again
      ≡ some (record {
        left = record j' { job_error_handle = true };
        calls = start_proc ∷ [];
        unused = unused;
      })
unfolding after_start set_job_status is_job_status_set
after_start-failed t j unused again p = ground arith

abbrev pub AllFree : List Slot → Type 0
AllFree ss = (k : ℕ) → k < 4 → (slot_at ss k).is_done ≡ true

-- The queue and the calls after a turn that has not ended any job: only a queue without jobs is idle.
abbrev pub Kept : ThreadQueue → ProcessManager → Turn → Type 0
Kept q m (idle r) = AllFree q.slots × (r.slots ≡ q.slots)
Kept q m running = ⊥
Kept q m undefined = ⊥
Kept q m (turned r m' calls w) =
    (calls ≡ start_proc ∷ [])
    × (all_failing r.slots ≡ true)
    × (pending r.slots ≡ pending q.slots)
    × (r.total_jobs_in_queue ≡ q.total_jobs_in_queue)
    × (m' ≡ m)

-- The job after a turn in which it returned `JOB_FAILED`.
abbrev failed_job : QueueJob → QueueJob
failed_job j = record (set_job_status job_failed (set_job_status job_running j)) {
  job_error_handle = true;
}

failed_job-is_failing :
    (j : QueueJob)
    → is_job_status_set job_pending j ≡ false
    → is_job_status_set job_done j ≡ false
    → is_failing (record { is_done = false; cell = job (failed_job j) }) ≡ true
unfolding set_job_status is_job_status_set
failed_job-is_failing j p d = ground arith

running-pending :
    (j : QueueJob)
    → is_job_status_set job_pending j ≡ false
    → is_job_status_set job_pending (set_job_status job_running j) ≡ false
unfolding set_job_status is_job_status_set
running-pending j p = p

rounds_failed :
    (t : JobTimer) (j : QueueJob) (r : Round) (rs : List Round)
    → t.job_should_pause ≡ false
    → is_job_status_set job_pending j ≡ false
    → r.result ≡ job_failed
    → run_rounds t (set_job_status job_running j) (r ∷ rs)
      ≡ some (record { left = failed_job j; calls = start_proc ∷ []; unused = rs })
rounds_failed t j r rs p n e =
    run_rounds-cons t (set_job_status job_running j) r rs p
    ∙ rw e (
        after_start-failed (tick r.expired t) (set_job_status job_running j) rs _
          (running-pending j n))

run_job_failed :
    (j : QueueJob) (q : ThreadQueue) (m : ProcessManager) (r : Round) (rs : List Round)
    → is_job_status_set job_pending j ≡ false
    → r.result ≡ job_failed
    → run_job j q m (r ∷ rs)
      ≡ turned (store_job (failed_job j) q) m (start_proc ∷ []) (failed_job j).process_table.freed
unfolding run_job
run_job_failed j q m r rs p e =
    ap (after_run q m) (rounds_failed (init_timer (set_job_status job_running j)) j r rs refl p e)

run_failed :
    (j : QueueJob) (q : ThreadQueue) (m : ProcessManager) (r : Round) (rs : List Round)
    → (slot_at q.slots q.head).is_done ≡ false
    → all_failing q.slots ≡ true
    → is_job_status_set job_pending j ≡ false
    → is_job_status_set job_done j ≡ false
    → r.result ≡ job_failed
    → Kept q m (take_turn (job j) q m (r ∷ rs))
unfolding take_turn
run_failed j q m r rs o a p d e =
    let s =
      set-failing q.slots q.head (record { is_done = false; cell = job (failed_job j) }) o refl
        (failed_job-is_failing j p d) a in
    rw (d, run_job_failed j q m r rs p e) (refl, s.0, s.1, refl, refl)

turn_failed :
    (c : Cell) (q : ThreadQueue) (m : ProcessManager) (r : Round) (rs : List Round)
    → (c ≡ null)
      ⊎ (((slot_at q.slots q.head).is_done ≡ false) × (c ≡ (slot_at q.slots q.head).cell))
    → (c ≡ null → AllFree q.slots)
    → all_failing q.slots ≡ true
    → r.result ≡ job_failed
    → Kept q m (take_turn c q m (r ∷ rs))
turn_failed c q m r rs (inl n) i a e = rw n (unfold take_turn in (i n, refl))
turn_failed c q m r rs (inr (o, x)) i a e =
    let (j, y, p, d) = failing_slot _ _ o (failing_at q.slots q.head o a) in
    rw (x, y) (run_failed j q m r rs o a p d e)

null-job : {c : Cell} {j : QueueJob} → c ≡ null → c ≡ job j → ⊥
null-job e f = cc

-- An occupied slot gives the thread a job.
idle-AllFree :
    (q : ThreadQueue)
    → q.head < 4
    → all_failing q.slots ≡ true
    → (get_next_task q).0 ≡ null
    → AllFree q.slots
idle-AllFree q h a n k l = elim (Bool-cases (slot_at q.slots k).is_done) [
  | inl d ↦ d
  | inr o ↦
      let (s, c, b, d, e) = get_next_task_approaches q k h l o in
      let r = (get_next_task q).1.head in
      let (j, y, p, f) =
        failing_slot (slot_at q.slots r).is_done (slot_at q.slots r).cell b
          (failing_at q.slots r b a) in
      absurd (null-job n (c ∙ y))
]

-- A queue whose jobs are neither done nor pending, run with a start function that returns
-- `JOB_FAILED`: unless its four slots are free, a turn calls `start_proc` once and neither
-- `fail_proc` nor `end_proc`, the same number of jobs stays queued, none is unregistered, and all are
-- still neither done nor pending, so that the next turn is like this one.
pub failing_turn :
    (q : ThreadQueue) (m : ProcessManager) (r : Round) (rs : List Round)
    → q.head < 4
    → all_failing q.slots ≡ true
    → r.result ≡ job_failed
    → Kept q m (thread_turn q m (r ∷ rs))
unfolding thread_turn get_next_task
failing_turn q m r rs h a e =
    turn_failed _ (get_next_task q).1 m r rs (scan_finds queue_size q.slots q.head)
      (λ n. idle-AllFree q h a n) a e
