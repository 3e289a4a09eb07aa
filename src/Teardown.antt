-- ===== src/Teardown.antt =====
-- The end of the runtime: `WorkerGuard::run` and the drop of a `WorkerGuard`
-- (yaay-mt-runtime/src/worker_manager.rs), with the reference count and `drop_in_place` of a task
-- (yaay-mt-runtime/src/task.rs). All other threads have ended by the drop.
pub mod Counts
pub mod Collect
mod Release
pub mod Frees
pub mod Runs
pub mod Spawned
pub mod Started
pub mod Examples
use yaay_rs.Base.{ℕ, zero, suc, ◌-◌, ◌==◌, Bool, List, [], ◌∷◌, Option, none, some, if◌then◌else◌}
use yaay_rs.Task.Status.{dropped_bit, and_bits, has_bits}
use yaay_rs.Task.Heap.{Ptr, Heap, Cmd, load, store, write, pure, ◌>>=◌, ◌>>◌, new}
use yaay_rs.TaskList.Defs.{TaskList, push_back_batch, is_empty, pop_all, drain}
use yaay_rs.TaskList.Defs
use yaay_rs.Shared.State.{Runtime, M, on_heap, lock_push_back, call_next_epoch}
use yaay_rs.Shared.State
use yaay_rs.Wake.{fetch_or}

abbrev pub max_rc : ℕ
max_rc = 18446744073709551615

-- `Task::rc`
unfoldable pub rc : Ptr → Cmd ℕ
unfolding load
rc p = do t ← load p; pure t.rc

-- `fn_dealloc`
abbrev pub dealloc : Ptr → Cmd (Unit {0})
dealloc p h = some (tt, write h p none)

-- `Task::rc_dec`; the `usize` wraps.
unfoldable pub rc_dec : Ptr → Cmd (Unit {0})
unfolding load store
rc_dec p = do
  t ← load p
  store p (record t { rc = if t.rc == 0 then max_rc else t.rc - 1 })
  (if t.rc == 1 then dealloc p else pure tt)

-- `Task::drop_in_place`, given `fn_drop_in_place`, which drops the future.
unfoldable pub drop_in_place : (Ptr → Cmd (Unit {0})) → Ptr → Cmd (Unit {0})
drop_in_place drop_future p = do
  prev ← fetch_or p dropped_bit
  (if has_bits (and_bits prev dropped_bit) then pure tt else drop_future p)

-- The body of the loop over the tasks that are left; a message on leaks changes no state.
unfoldable pub release : (Ptr → Cmd (Unit {0})) → Ptr → Cmd (Unit {0})
release drop_future p = do
  count ← rc p
  (if count == 0 then (λ h. none) else (do drop_in_place drop_future p; _ ← rc p; rc_dec p))

-- The loop over `worker_ptrs`; a worker's list is gone with the worker.
unfoldable pub collect : List TaskList → TaskList → Cmd TaskList
collect [] tasks = pure tasks
collect (l ∷ queues) tasks =
    let rest = collect queues in
    if is_empty l
    then rest tasks
    else (do tasks' ← push_back_batch tasks (pop_all l).0; rest tasks')

-- The drop of a `WorkerGuard`: of the runtime only the heap of tasks is left.
unfoldable pub teardown : ℕ → (Ptr → Cmd (Unit {0})) → Runtime → Option Heap
teardown fuel drop_future rt =
    elim ((collect rt.queues Defs.new >>= λ tasks. drain fuel tasks (release drop_future))
      rt.heap) [ none ↦ none | some (_, h) ↦ some h ]

-- `WorkerGuard::run`, given the address of the new task
unfoldable pub run : Ptr → M (Unit {0})
run fresh =
    State.◌>>=◌ (on_heap (new fresh)) λ task. State.◌>>◌ (lock_push_back 0 task) call_next_epoch
