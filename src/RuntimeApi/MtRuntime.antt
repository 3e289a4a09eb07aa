-- ===== src/RuntimeApi/MtRuntime.antt =====
-- `MTRuntime` (yaay-mt-runtime/src/runtime.rs) is such a runtime.
use yaay_rs.Base.{◌≡◌, refl, subst, List, some, none, length}
use yaay_rs.TaskList.Defs.{TaskList}
use yaay_rs.Shared.State.{Runtime, M}
use yaay_rs.Shared.View.{Contents, View}
use yaay_rs.Shared.Locked.{Ends, Ends-get}
use yaay_rs.Batch
use yaay_rs.Batch.Split.{Split}
use yaay_rs.Batch.Laws.{zip, Clean, push_batch-View, push_batch-Clean}
use yaay_rs.Wake.{Local, nothing, batch, worker, guard_new, guard_drop, new_lists}
use yaay_rs.Wake.Guard.{nils, new_lists-Split}
use yaay_rs.RuntimeApi.{RuntimeApi, Delivers}

-- `MTRuntime::push_batch`, which does not check where LOCAL leads.
unfoldable pub push_batch : Local → M Local
push_batch nothing rt = none
push_batch (batch lists) rt = elim (Batch.push_batch lists rt) [
  | none ↦ none
  | some (lists', rt') ↦ some (batch lists', rt')
]
push_batch worker rt = none

pub guard_new-Split :
    (rt : Runtime) (c : Contents)
    → View rt c
    → (lists : List TaskList) × (guard_new nothing rt ≡ some (batch lists, rt))
      × Split rt.heap rt.queues c lists (nils (length c))
unfolding guard_new
guard_new-Split rt c v =
    (new_lists (length rt.queues), refl, rw (← v.sized) (new_lists-Split rt c (length rt.queues) v))

push_batch-run :
    (lists lists' : List TaskList) (rt rt' : Runtime)
    → Batch.push_batch lists rt ≡ some (lists', rt')
    → push_batch (batch lists) rt ≡ some (batch lists', rt')
unfolding push_batch
push_batch-run lists lists' rt rt' ran = rw (push_batch, ran) refl

pub push_batch-Delivers :
    (rt : Runtime) (c : Contents) (lists : List TaskList) (d : Contents)
    → length c ≡ length lists
    → Split rt.heap rt.queues c lists d
    → (lists' : List TaskList) × (rt' : Runtime) × (push_batch (batch lists) rt
        ≡ some (batch lists', rt'))
      × Delivers rt c lists d lists' rt'
push_batch-Delivers rt c lists d sized split =
    let (lists', rt', ran, done) =
      Ends-get (Batch.push_batch lists rt) (push_batch-View rt c lists d sized split) in
    let clean : Clean (length lists) rt lists' rt' =
      subst (Ends (Clean (length lists) rt)) ran (push_batch-Clean rt c lists d sized split) in
    (
      lists',
      rt',
      push_batch-run lists lists' rt rt' ran,
      record {
        view = done.1;
        nulls = clean.nulls;
        sized = clean.sized;
        alike = clean.alike;
        status = done.2;
      },
    )

guard_drop-run :
    (lists lists' : List TaskList) (rt rt' : Runtime)
    → Batch.push_batch lists rt ≡ some (lists', rt')
    → guard_drop (batch lists) rt ≡ some (nothing, rt')
unfolding guard_drop
guard_drop-run lists lists' rt rt' ran = rw ran refl

pub guard_drop-View :
    (rt : Runtime) (c : Contents) (lists : List TaskList) (d : Contents)
    → length c ≡ length lists
    → Split rt.heap rt.queues c lists d
    → (rt' : Runtime) × (guard_drop (batch lists) rt ≡ some (nothing, rt')) × View rt' (zip c d)
guard_drop-View rt c lists d sized split =
    let (lists', rt', ran, done) =
      Ends-get (Batch.push_batch lists rt) (push_batch-View rt c lists d sized split) in
    (rt', guard_drop-run lists lists' rt rt' ran, done.1)

abbrev pub mt_runtime : RuntimeApi
mt_runtime = record {
  batch_guard = guard_new;
  push_batch = push_batch;
  drop_guard = guard_drop;
  batch_guard-Split = guard_new-Split;
  push_batch-Delivers = push_batch-Delivers;
  drop_guard-View = guard_drop-View;
}
