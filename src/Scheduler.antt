-- ===== src/Scheduler.antt =====
-- Every worker's `main_loop` (yaay-mt-runtime/src/worker.rs) over one `Epoch` and the local queues, an
-- access at a time, with the threads that push tasks.
pub mod Machine
mod Facts
mod Invariant
pub mod Liveness
pub mod Examples
