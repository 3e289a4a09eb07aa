-- ===== src/Wake.antt =====
-- `Task::wake` (yaay-mt-runtime/src/task.rs) as one call on the queues, by where its thread's pointer
-- LOCAL (shared.rs) leads, and the batch guard (batch.rs) that sets that pointer.
mod Restatus
pub mod Marked
pub mod Laws
pub mod Batched
pub mod Guard
pub mod Examples
use yaay_rs.Base.{
  ℕ, zero, suc, Bool, true, false, List, [], ◌∷◌, Option, none, some, get_elem?, set, length,
  if◌then◌else◌,
}
use yaay_rs.Task.Status.{Status, muted_bit, notified_bit, or_bits}
use yaay_rs.Task.Heap.{Ptr, Cmd, load, store, get_worker_id}
use yaay_rs.Task.Heap
use yaay_rs.Task.Protocol.{is_settled}
use yaay_rs.TaskList.Defs.{TaskList, push_back}
use yaay_rs.TaskList.Defs
use yaay_rs.Shared.State.{Runtime, M, pure, ◌>>=◌, ◌>>◌, on_heap, lock_push_back, call_next_epoch}
use yaay_rs.Batch.{push_batch}

-- Where LOCAL leads: nowhere, on the threads of others; to a `RuntimeLocalData`, between `BatchGuard::new`
-- and its drop; to the `Worker`, on a worker thread.
pub data Local : Type 0 where
  nothing : Local
  batch : (task_lists : List TaskList) → Local
  worker : Local

-- `status.fetch_or(bits)`
unfoldable pub fetch_or : Ptr → Status → Cmd Status
unfolding load store
fetch_or p bits h = Heap.and_then (load p h) λ t h.
    Heap.and_then (store p (record t { status = or_bits t.status bits }) h)
      λ _ h. some (t.status, h)

-- `push_back` on one of the local lists, without a lock; out of bounds is undefined behaviour.
unfoldable pub push_local : List TaskList → ℕ → Ptr → M Local
push_local lists i task rt = elim (get_elem? lists i) [
  | none ↦ none
  | some l ↦ elim (push_back l task rt.heap) [
    | none ↦ none
    | some (l', h) ↦ some (batch (set lists i l'), record rt { heap = h })
  ]
]

-- The `match` on `RuntimeLocalData::get`, which takes a `Worker` for a `RuntimeLocalData`.
unfoldable pub schedule : Local → ℕ → Ptr → M Local
schedule nothing worker_id task = do lock_push_back worker_id task; call_next_epoch; pure nothing
schedule (batch lists) worker_id task = push_local lists worker_id task
schedule worker worker_id task = λ rt. none

unfoldable pub wake : Local → Ptr → M Local
wake local task = do
  prev ← on_heap (fetch_or task (or_bits muted_bit notified_bit))
  (if is_settled prev
      then pure local
      else (do worker_id ← on_heap (get_worker_id task); schedule local worker_id task))

-- `RuntimeLocalData::new`, for as many workers as there are queues
unfoldable pub new_lists : ℕ → List TaskList
new_lists zero = []
new_lists (suc n) = Defs.new ∷ new_lists n

-- `BatchGuard::new`; the assertion that LOCAL is null fails otherwise.
unfoldable pub guard_new : Local → M Local
unfolding new_lists
guard_new nothing rt = some (batch (new_lists (length rt.queues)), rt)
guard_new _ rt = none

-- The drop of a `BatchGuard`
unfoldable pub guard_drop : Local → M Local
guard_drop (batch lists) = do _ ← push_batch lists; pure nothing
guard_drop _ = λ rt. none
