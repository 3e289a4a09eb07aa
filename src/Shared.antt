-- ===== src/Shared.antt =====
-- The data that the threads of yaay-mt-runtime share: the heap of tasks, the local queues of the workers
-- and the status word. One call at a time runs on it, to its end.
pub mod State
pub mod View
pub mod Locked
pub mod Alloc
