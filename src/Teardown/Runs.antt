-- ===== src/Teardown/Runs.antt =====
-- What `WorkerGuard::run` does to the queues.
use yaay_rs.Base.{◌+◌, ◌≡◌, ◌≢◌, List, [], ◌∷◌, ◌++◌, some, get_elem?, set, if◌then◌else◌, arith}
use yaay_rs.Epoch.Defs.{next_epoch}
use yaay_rs.Task.Heap.{Ptr, null}
use yaay_rs.Shared.State.{Runtime, lock_push_back, call_next_epoch}
use yaay_rs.Shared.View.{Contents, View, Nowhere}
use yaay_rs.Shared.Locked.{Ends, Ends-get, lock_push_back-View}
use yaay_rs.Shared.Alloc.{allocated, new_runs, allocated-Live, allocated-View}
use yaay_rs.Teardown.{run}

pub run-steps :
    (rt rt' : Runtime) (fresh : Ptr)
    → fresh ≢ null
    → lock_push_back 0 fresh (allocated rt fresh) ≡ some (tt, rt')
    → run fresh rt ≡ call_next_epoch rt'
unfolding run
run-steps rt rt' fresh ne pushed = ground (arith, new_runs rt fresh ne, pushed)

-- `run` puts the task of the main function behind those of the queue of worker 0, and calls
-- `next_epoch` once.
pub run-View :
    (rt : Runtime) (c : Contents) (xs : List Ptr) (fresh : Ptr)
    → fresh ≢ null
    → View rt c
    → Nowhere fresh c
    → get_elem? c 0 ≡ some xs
    → Ends
        (λ _ rt'.
          View rt' (set c 0 (xs ++ fresh ∷ []))
          × (rt'.status ≡ (next_epoch rt.status).word)
          × (rt'.unparks ≡ (if (next_epoch rt.status).wakes then rt.unparks + 1 else rt.unparks)))
        (run fresh rt)
unfolding call_next_epoch
run-View rt c xs fresh ne v out at =
    let rt1 = allocated rt fresh in
    let v1 = allocated-View rt fresh ne c v out in
    let live = allocated-Live rt fresh ne in
    let (_, rt', ran, post) =
      Ends-get (lock_push_back 0 fresh rt1) (lock_push_back-View rt1 c v1 0 xs at fresh live out) in
    rw (run-steps rt rt' fresh ne ran)
      (post.0, ground (arith, post.1.0), ground (arith, post.1.0, post.1.1))
