-- ===== src/Shared/Alloc.antt =====
-- A new task on the heap leaves the queues as they are.
use yaay_rs.Base.{◌≡◌, ◌≢◌, refl, some, arith, beq-ne, beq_refl}
use yaay_rs.Task.Heap.{Ptr, Heap, null, new_task, write, new}
use yaay_rs.TaskList.Chain.{Live, write-other}
use yaay_rs.Shared.State.{Runtime, on_heap}
use yaay_rs.Shared.View.{Contents, View, Nowhere, Nowhere-get, Holds-frame}

-- The new task stands at `fresh`.
abbrev pub allocated : Runtime → Ptr → Runtime
allocated rt fresh = record rt { heap = write rt.heap fresh (some new_task) }

pub write_here : (h : Heap) (p : Ptr) → write h p (some new_task) p ≡ some new_task
unfolding write
write_here h p = rw (beq_refl p) refl

new-run : (h : Heap) (p : Ptr) → p ≢ null → new p h ≡ some (p, write h p (some new_task))
unfolding new
new-run h p ne = rw (beq-ne p null ne) refl

module _ (rt : Runtime) (fresh : Ptr) (ne : fresh ≢ null) where
  pub new_runs : on_heap (new fresh) rt ≡ some (fresh, allocated rt fresh)
  new_runs = ground (arith, new-run rt.heap fresh ne)

  pub allocated-Live : Live (allocated rt fresh).heap fresh
  allocated-Live = record { ne_null = ne; here = new_task; holds = write_here rt.heap fresh }

  pub allocated-View : (c : Contents) → View rt c → Nowhere fresh c → View (allocated rt fresh) c
  allocated-View c v out =
      Holds-frame (allocated rt fresh).heap fresh v (write-other rt.heap fresh _)
        (λ j ys at. Nowhere-get fresh c j ys out at)
