-- ===== src/Scheduler.antt =====
-- scheduler/: jobs, the queue of each task thread, the task pool and the scheduler's decisions.
pub mod Job
pub mod ThreadQueue
pub mod Registry
pub mod TaskPool
pub mod Balance
pub mod Worker
