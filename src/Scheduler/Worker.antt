-- ===== src/Scheduler/Worker.antt =====
-- The task thread of scheduler/sched.cpp: `thread_task`, with the timer of a running job.
pub mod Turns
pub mod Outcome
pub mod Failing
pub mod Finish
use worker_unit.Base.{
  ℕ, zero, suc, ◌+◌, Bool, true, false, not, ◌&&◌, ◌||◌, Option, none, some, List, [], ◌∷◌, ltb,
  leb, ◌==◌, if◌then◌else◌, set,
}
use worker_unit.Scheduler.Job.{
  JobStatus, job_running, job_pending, job_failed, job_done, ProcessTable, QueueJob, set_job_status,
  is_job_status_set,
}
use worker_unit.Scheduler.ThreadQueue.{
  Cell, unset, null, job, Slot, ThreadQueue, get_next_task, mark_task_as_complete,
}
use worker_unit.Scheduler.Registry.{ProcessManager, unregister_process}

-- The functions of a `ProcessStates`, as they are called.
pub data Call : Type 0 where
  start_proc pause_proc end_proc fail_proc : Call

pub record JobTimer : Type 0 where
  pub allowed_cpu_slice : ℕ
  pub job_should_pause : Bool

-- A timer of no slice has no thread; its `allowedCpuSlice` is never read.
unfoldable pub init_timer : QueueJob → JobTimer
init_timer j = record { allowed_cpu_slice = j.cpu_slice_ms; job_should_pause = false }

-- The timer thread's write when the slice has run out.
unfoldable pub start_job_timer : JobTimer → JobTimer
start_job_timer t = record t { job_should_pause = false }

-- One call of `start_proc`: what it returns, and whether the timer ran out meanwhile.
pub record Round : Type 0 where
  pub result : JobStatus
  pub expired : Bool

-- The inner loop: the job when it is left, the calls made, and the rounds not used. `none` means
-- that the loop is still running when the rounds end.
pub record Leave : Type 0 where
  pub left : QueueJob
  pub calls : List Call
  pub unused : List Round

abbrev then_started : Option Leave → Option Leave
then_started none = none
then_started (some l) = some (record l { calls = start_proc ∷ l.calls })

-- The tests behind one call of `start_proc`, on the job as the call left it; `again` is the loop's
-- next cycle.
unfoldable pub after_start : JobTimer → QueueJob → List Round → Option Leave → Option Leave
unfolding is_job_status_set
after_start t j unused again =
    if is_job_status_set job_pending j && not (is_job_status_set job_done j)
    then (if t.job_should_pause && not (j.cpu_slice_ms == 0)
        then some (record { left = j; calls = start_proc ∷ pause_proc ∷ []; unused = unused })
        else then_started again)
    else if is_job_status_set job_failed j
    then some (record {
      left = record j { job_error_handle = true };
      calls = start_proc ∷ [];
      unused = unused;
    })
    else some (record { left = j; calls = start_proc ∷ []; unused = unused })

-- The timer after a call of `start_proc`.
unfoldable pub tick : Bool → JobTimer → JobTimer
unfolding start_job_timer
tick expired t = if expired then start_job_timer t else t

unfoldable pub run_rounds : JobTimer → QueueJob → List Round → Option Leave
run_rounds t j [] =
    if t.job_should_pause then some (record { left = j; calls = []; unused = [] }) else none
run_rounds t j (r ∷ rs) =
    let t' = tick r.expired t in
    let j' = set_job_status r.result j in
    let again = run_rounds t' j' rs in
    if t.job_should_pause
    then some (record { left = j; calls = []; unused = r ∷ rs })
    else after_start t' j' rs again

-- What one cycle of `thread_task` comes to: no job, a job that does not return to the loop, an
-- undefined access, or a new state with the calls made. `freed_write` says that the cycle wrote
-- through a pointer to a deleted process table.
pub data Turn : Type 0 where
  idle : ThreadQueue → Turn
  running : Turn
  undefined : Turn
  turned : ThreadQueue → ProcessManager → List Call → Bool → Turn

abbrev pub store_job : QueueJob → ThreadQueue → ThreadQueue
store_job j q = record q { slots = set q.slots q.head (record { is_done = false; cell = job j }) }

-- The function that the branch for a job that is done calls before anything else.
abbrev pub last_call : QueueJob → Call
last_call j = if j.job_error_handle then fail_proc else end_proc

abbrev pub after_mark : Call → ProcessManager → Bool → Option ThreadQueue → Turn
after_mark call m freed none = undefined
after_mark call m freed (some q) = turned q m (call ∷ []) freed

-- The job marked as complete, after its table was unregistered.
abbrev pub mark_finished : QueueJob → ThreadQueue → ProcessTable × ProcessManager → Turn
mark_finished j q (table, m) =
    after_mark (last_call j) m table.freed
      (mark_task_as_complete (store_job (record j { process_table = table }) q))

-- The branch for a job that is done: `unregisterProcess` comes before `markTaskAsComplete`.
unfoldable pub finish_job : QueueJob → ThreadQueue → ProcessManager → Turn
unfolding unregister_process mark_task_as_complete
finish_job j q m = mark_finished j q (unregister_process j.process_table m)

abbrev pub after_run : ThreadQueue → ProcessManager → Option Leave → Turn
after_run q m none = running
after_run q m (some l) = turned (store_job l.left q) m l.calls l.left.process_table.freed

unfoldable pub run_job : QueueJob → ThreadQueue → ProcessManager → List Round → Turn
unfolding init_timer
run_job j q m rs =
    let j' = set_job_status job_running j in after_run q m (run_rounds (init_timer j') j' rs)

unfoldable pub take_turn : Cell → ThreadQueue → ProcessManager → List Round → Turn
take_turn null q m rs = idle q
take_turn unset q m rs = undefined
take_turn (job j) q m rs =
    if is_job_status_set job_done j then finish_job j q m else run_job j q m rs

-- One cycle of `thread_task`, over what the job's start function will return.
unfoldable pub thread_turn : ThreadQueue → ProcessManager → List Round → Turn
unfolding get_next_task
thread_turn q m rs = let (c, q') = get_next_task q in take_turn c q' m rs
