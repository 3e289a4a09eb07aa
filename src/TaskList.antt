-- ===== src/TaskList.antt =====
-- yaay-mt-runtime/src/task_list.rs: the intrusive list of tasks, over the heap of Task/Heap, and the
-- theorems that its operations are those of a sequence.
pub mod Defs
pub mod Chain
pub mod Kept
pub mod Push
pub mod Alike
pub mod Pop
pub mod Drain
pub mod Examples
