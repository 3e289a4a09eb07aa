-- ===== src/Entry.antt =====
-- The entry points of `MTRuntime` (yaay-mt-runtime/src/runtime.rs) on the queues, as calls: a task is
-- allocated, at an address that is an argument, and pushed.
pub mod Laws
pub mod Examples
use yaay_rs.Base.{ℕ, zero, suc, ◌+◌, List, length}
use yaay_rs.Task.Heap.{Ptr, new}
use yaay_rs.Shared.State.{Runtime, M, pure, ◌>>=◌, ◌>>◌, on_heap, lock_push_front, call_next_epoch}
use yaay_rs.Worker.Calls.{Private}
use yaay_rs.Worker.Calls

-- `MTRuntime::spawn` and `MTRuntime::defer` on a worker thread
unfoldable pub spawn : Private → Ptr → M Private
spawn p fresh = do task ← on_heap (new fresh); Calls.spawn p task

unfoldable pub defer : Private → Ptr → M (Unit {0})
defer p fresh = do task ← on_heap (new fresh); Calls.defer p task

-- The closure of `for_each`, for `k` workers from `worker_id` on; `fresh` has the address of the
-- `Shutdown` task for each worker.
unfoldable pub push_shutdowns : (ℕ → Ptr) → (k worker_id : ℕ) → M (Unit {0})
push_shutdowns fresh zero worker_id = pure tt
push_shutdowns fresh (suc k) worker_id = do
  task ← on_heap (new (fresh worker_id))
  lock_push_front worker_id task
  push_shutdowns fresh k (worker_id + 1)

unfoldable pub shutdown_async : (ℕ → Ptr) → M (Unit {0})
shutdown_async fresh rt = (push_shutdowns fresh (length rt.queues) 0 >> call_next_epoch) rt
