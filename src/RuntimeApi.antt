-- ===== src/RuntimeApi.antt =====
-- What the reactor asks of a runtime: of the trait `RuntimeAPI` (yaay-runtime-api/src/lib.rs), the batch
-- guard and its `push_batch`, on the queues of the workers and the thread's pointer LOCAL.
pub mod MtRuntime
use yaay_rs.Base.{ℕ, ◌≡◌, List, some, length, if◌then◌else◌}
use yaay_rs.Epoch.Defs.{next_epoch}
use yaay_rs.TaskList.Defs.{TaskList}
use yaay_rs.TaskList.Alike.{Alike}
use yaay_rs.Shared.State.{Runtime, M}
use yaay_rs.Shared.View.{Contents, View}
use yaay_rs.Batch.Split.{Split}
use yaay_rs.Batch.Laws.{zip, all_empty, AllNull}
use yaay_rs.Wake.{Local, nothing, batch}
use yaay_rs.Wake.Guard.{nils}

-- The collected tasks stand behind those of the queues; the local lists are null, no task has changed
-- but in its `next` pointer, and `next_epoch` was called if there was a task.
pub record Delivers (rt : Runtime) (c : Contents) (lists : List TaskList) (d : Contents)
    (lists' : List TaskList) (rt' : Runtime) : Type 0 where
  pub view : View rt' (zip c d)
  pub nulls : AllNull lists'
  pub sized : length lists' ≡ length lists
  pub alike : Alike rt.heap rt'.heap
  pub status : rt'.status ≡ (if all_empty d then rt.status else (next_epoch rt.status).word)

pub record RuntimeApi : Type 0 where
  pub batch_guard : Local → M Local
  pub push_batch : Local → M Local
  pub drop_guard : Local → M Local  -- the drop of a `BatchGuard`
  -- The guard gives its thread an empty list for each worker, and the queues are as before.
  pub batch_guard-Split :
      (rt : Runtime) (c : Contents)
      → View rt c
      → (lists : List TaskList) × (batch_guard nothing rt ≡ some (batch lists, rt))
        × Split rt.heap rt.queues c lists (nils (length c))
  pub push_batch-Delivers :
      (rt : Runtime) (c : Contents) (lists : List TaskList) (d : Contents)
      → length c ≡ length lists
      → Split rt.heap rt.queues c lists d
      → (lists' : List TaskList) × (rt' : Runtime) × (push_batch (batch lists) rt
          ≡ some (batch lists', rt'))
        × Delivers rt c lists d lists' rt'
  -- The drop of the guard delivers what is left, and its thread is outside of batch mode.
  pub drop_guard-View :
      (rt : Runtime) (c : Contents) (lists : List TaskList) (d : Contents)
      → length c ≡ length lists
      → Split rt.heap rt.queues c lists d
      → (rt' : Runtime) × (drop_guard (batch lists) rt ≡ some (nothing, rt')) × View rt' (zip c d)
