-- ===== src/Scheduler/Job.antt =====
-- include/task.hpp, include/process.hpp and the `QueueJob` class of scheduler/sched.hpp.
use worker_unit.Base.{ℕ, ◌*◌, ◌/◌, Bool, true, false, Option, none, some, ◌==◌, if◌then◌else◌}

-- `enum JobStatus`: one bit each.
pub data JobStatus : Type 0 where
  job_running job_pending job_waiting job_failed job_finalized job_done : JobStatus

-- The word `jobStatus` of a `ProcessTable`, read and written only through the six bits.
pub record StatusWord : Type 0 where
  pub running : Bool
  pub pending : Bool
  pub waiting : Bool
  pub failed : Bool
  pub finalized : Bool
  pub finished : Bool

abbrev pub no_status : StatusWord
no_status = record {
  running = false;
  pending = false;
  waiting = false;
  failed = false;
  finalized = false;
  finished = false;
}

-- `enum TaskPriority`, in the order of its numbers 0 to 3.
pub data TaskPriority : Type 0 where
  non_preemtable high_priority medium_priority low_priority : TaskPriority

abbrev pub priority_number : TaskPriority → ℕ
priority_number non_preemtable = 0
priority_number high_priority = 1
priority_number medium_priority = 2
priority_number low_priority = 3

abbrev pub nanosecs : ℕ
nanosecs = 1_000_000

unfoldable pub calculate_priority_timeslice : TaskPriority → ℕ
calculate_priority_timeslice non_preemtable = 0
calculate_priority_timeslice high_priority = 6 * nanosecs
calculate_priority_timeslice medium_priority = 4 * nanosecs
calculate_priority_timeslice low_priority = 2 * nanosecs

-- A `ProcessTable` at its address. `freed` says that `unregisterProcess` has deleted it, so that a pointer to it
-- dangles; `process_type` is the number of `processState->type`.
pub record ProcessTable : Type 0 where
  pub address : ℕ
  pub pid : ℕ
  pub process_type : ℕ
  pub job_status : StatusWord
  pub priority : TaskPriority
  pub freed : Bool

-- A `QueueJob`. No two jobs share a process table, so a job holds its own.
pub record QueueJob : Type 0 where
  pub cpu_slice_ms : ℕ
  pub process_table : ProcessTable
  pub job_error_handle : Bool

unfoldable pub set_bit : JobStatus → StatusWord → StatusWord
set_bit job_running w = record w { running = true }
set_bit job_pending w = record w { pending = true }
set_bit job_waiting w = record w { waiting = true }
set_bit job_failed w = record w { failed = true }
set_bit job_finalized w = record w { finalized = true }
set_bit job_done w = record w { finished = true }

unfoldable pub set_job_status : JobStatus → QueueJob → QueueJob
unfolding set_bit
set_job_status s j = record j {
  process_table = record j.process_table { job_status = set_bit s j.process_table.job_status };
}

unfoldable pub bit_set : JobStatus → StatusWord → Bool
bit_set job_running w = w.running
bit_set job_pending w = w.pending
bit_set job_waiting w = w.waiting
bit_set job_failed w = w.failed
bit_set job_finalized w = w.finalized
bit_set job_done w = w.finished

unfoldable pub is_job_status_set : JobStatus → QueueJob → Bool
unfolding bit_set
is_job_status_set s j = bit_set s j.process_table.job_status

-- `jobStatus &= ~(1 << status)`: the status is a mask already, so the shift is by 1, 2, 4, 8, 16
-- or 32 places. The first three hit another status's bit, the next two no bit in use, and a shift
-- of an `int` by 32 is undefined (`none`).
unfoldable pub reset_bit : JobStatus → StatusWord → Option StatusWord
reset_bit job_running w = some (record w { pending = false })
reset_bit job_pending w = some (record w { waiting = false })
reset_bit job_waiting w = some (record w { finalized = false })
reset_bit job_failed w = some w
reset_bit job_finalized w = some w
reset_bit job_done w = none

unfoldable pub reset_job_status : JobStatus → QueueJob → Option QueueJob
unfolding reset_bit
reset_job_status s j = elim (reset_bit s j.process_table.job_status) [
  | none ↦ none
  | some w ↦ some (record j { process_table = record j.process_table { job_status = w } })
]

-- `this->cpuSliceMs = cpuSliceMs`: the member is assigned to itself, the argument is not read.
unfoldable pub set_cpu_time_slice : ℕ → QueueJob → QueueJob
set_cpu_time_slice cpu_time_slice j = record j { cpu_slice_ms = j.cpu_slice_ms }

unfoldable pub new_queue_job : ProcessTable → QueueJob
new_queue_job t = record { cpu_slice_ms = 0; process_table = t; job_error_handle = false }

-- `none` is the division by a process type of zero.
unfoldable pub init_job : ProcessTable → Option QueueJob
unfolding set_cpu_time_slice new_queue_job calculate_priority_timeslice
init_job t =
    if t.process_type == 0
    then none
    else some (
        set_cpu_time_slice (calculate_priority_timeslice t.priority / t.process_type)
          (new_queue_job t))
