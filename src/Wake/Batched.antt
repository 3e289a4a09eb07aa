-- ===== src/Wake/Batched.antt =====
-- A wake within a batch, with what it does to all tasks.
use yaay_rs.Base.{
  ℕ, ◌≡◌, ◌∙◌, refl, false, Bool-cases, inl, inr, List, [], ◌∷◌, ◌++◌, some, get_elem?, set,
  if◌then◌else◌, arith, get_elem?-of_lt, lt_of_get_elem?,
}
use yaay_rs.Task.Heap.{Ptr}
use yaay_rs.Task.Protocol.{is_settled}
use yaay_rs.TaskList.Defs.{TaskList}
use yaay_rs.TaskList.Chain.{Live, IsList}
use yaay_rs.TaskList.Alike.{Alike, push_back-Alike}
use yaay_rs.Shared.State.{Runtime}
use yaay_rs.Shared.View.{Contents, Nowhere, Nowhere-get}
use yaay_rs.Batch.Split.{Split}
use yaay_rs.Wake.{batch, wake, schedule}
use yaay_rs.Wake.Marked.{
  marked, marked_rt, marked-Restatus, marked-Live, wake-settled, wake-schedule,
}
use yaay_rs.Wake.Laws.{Sees-Restatus, push_local-run, push_local-Split}

-- The bits of the task are set; if it was neither muted nor dropped, it stands behind the tasks `xs` of
-- the local list of its worker, and no task has changed otherwise but in its `next` pointer, and `next_epoch` has not been called.
pub batched_wake :
    (rt : Runtime) (c d : Contents) (lists : List TaskList) (xs : List Ptr) (task : Ptr)
    (v : Live rt.heap task)
    → Split rt.heap rt.queues c lists d
    → (is_settled v.here.status ≡ false → Nowhere task c × Nowhere task d)
    → get_elem? d v.here.worker_id ≡ some xs
    → (lists' : List TaskList) × (rt' : Runtime) × (wake (batch lists) task rt
        ≡ some (batch lists', rt'))
      × Split rt'.heap rt'.queues c lists'
          (if is_settled v.here.status then d else set d v.here.worker_id (xs ++ task ∷ []))
      × Alike (marked rt.heap task v.here) rt'.heap
      × (rt'.status ≡ rt.status)
unfolding schedule
batched_wake rt c d lists xs task v split idle at = elim (Bool-cases (is_settled v.here.status)) [
  | inl e ↦ (
    lists,
    marked_rt rt task v,
    wake-settled rt task v (batch lists) e,
    rw e (Sees-Restatus (batch lists) rt c d task _ (marked-Restatus rt.heap task v) split),
    λ a. refl,
    refl,
  )
  | inr e ↦
      let i : ℕ = v.here.worker_id in
      let rt1 = marked_rt rt task v in
      let split1 : Split rt1.heap rt1.queues c lists d =
        Sees-Restatus (batch lists) rt c d task _ (marked-Restatus rt.heap task v) split in
      let out = idle e in
      let (l, at_l) =
        get_elem?-of_lt lists i (omega (arith, split.locals.sized, lt_of_get_elem? d i xs at)) in
      let is : IsList rt1.heap l xs = split1.locals.lists i l xs at_l at in
      let (l', h, ran, is', same, alike) =
        push_back-Alike rt1.heap l xs task is (marked-Live rt.heap task v)
          (Nowhere-get task d i xs out.1 at) in
      (
        set lists i l',
        record rt1 { heap = h },
        wake-schedule rt task v (batch lists) e ∙ push_local-run lists i task rt1 l l' h at_l ran,
        rw e (push_local-Split rt1 c d i lists l l' xs task h split1 at is out.0 out.1 is' same),
        alike,
        refl,
      )
]
