-- ===== src/Task.antt =====
-- yaay-mt-runtime/src/task.rs: the task record, its status byte and the heap that tasks live on.
pub mod Status
pub mod Bytes
pub mod Heap
pub mod Protocol
pub mod Contract
