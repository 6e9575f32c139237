-- ===== src/Sched.antt =====
-- src/sched: the job queues, the strands that serialise jobs, the runner and its workers.
pub mod LockQueue
pub mod LockFreeQueue
pub mod Strand
pub mod Runner
pub mod Worker
pub mod SpinMutex
