-- ===== src/Batch.antt =====
-- The batch mode of the reactor threads (yaay-mt-runtime/src/batch.rs): tasks are collected in a local
-- list for each worker, and `push_batch` moves them to the queues.
pub mod Split
pub mod Laws
pub mod Examples
use yaay_rs.Base.{ℕ, ◌+◌, Bool, true, false, List, [], ◌∷◌, if◌then◌else◌}
use yaay_rs.TaskList.Defs.{TaskList, new, is_empty, pop_all}
use yaay_rs.Shared.State.{M, pure, ◌>>=◌, ◌>>◌, lock_push_batch, call_next_epoch}

-- The closure of `for_each`, for the worker `worker_id` and those after it: `all_empty`, and the lists
-- that are left
unfoldable pub push_lists : (worker_id : ℕ) → List TaskList → M (Bool × List TaskList)
push_lists worker_id [] = pure (true, [])
push_lists worker_id (tasks ∷ lists) =
    let rest = push_lists (worker_id + 1) lists in
    let (batch, tasks') = pop_all tasks in
    if is_empty tasks
    then (do (all_empty, lists') ← rest; pure (all_empty, tasks ∷ lists'))
    else (do lock_push_batch worker_id batch; (_, lists') ← rest; pure (false, tasks' ∷ lists'))

unfoldable pub push_batch : List TaskList → M (List TaskList)
unfolding push_lists
push_batch lists = do
  (all_empty, lists') ← push_lists 0 lists
  (if all_empty then pure lists' else (do call_next_epoch; pure lists'))
