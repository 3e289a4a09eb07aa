-- ===== src/Teardown/Started.antt =====
-- The task of the main function keeps the books that the drop of the `WorkerGuard` relies on.
use yaay_rs.Base.{ℕ, ◌≡◌, ◌≢◌, List, [], ◌∷◌, ◌++◌, none, some, get_elem?, set}
use yaay_rs.Task.Heap.{Ptr, null}
use yaay_rs.Shared.State.{Runtime, lock_push_back, call_next_epoch}
use yaay_rs.Shared.View.{Contents, View, Nowhere}
use yaay_rs.Shared.Locked.{Ends, Ends-get, lock_push_back-View}
use yaay_rs.Shared.Alloc.{allocated, allocated-Live, allocated-View}
use yaay_rs.Teardown.{run}
use yaay_rs.Teardown.Runs.{run-steps}
use yaay_rs.Teardown.Collect.{concat}
use yaay_rs.Teardown.Frees.{Balanced, Alike-Balanced}
use yaay_rs.Teardown.Spawned.{refs-concat-set, member-concat-set, allocated-Balanced, same-Balanced}

-- `run` puts the task of the main function behind those of the queue of worker 0, and when the counts of
-- all tasks were those of their references, they still are. The task is allocated where no task is, and
-- its future holds no waker yet.
pub run-Balanced :
    (fresh : Ptr) (rt : Runtime) (c : Contents) (xs : List Ptr) (owned : Ptr → List Ptr)
    (out : Ptr → ℕ)
    → View rt c
    → fresh ≢ null
    → rt.heap fresh ≡ none
    → Nowhere fresh c
    → owned fresh ≡ []
    → get_elem? c 0 ≡ some xs
    → Balanced owned out rt.heap (concat c)
    → Ends
        (λ _ rt'.
          View rt' (set c 0 (xs ++ fresh ∷ []))
          × Balanced owned out rt'.heap (concat (set c 0 (xs ++ fresh ∷ []))))
        (run fresh rt)
unfolding call_next_epoch
run-Balanced fresh rt c xs owned out v ne vacant nowhere bare at b =
    let c' : Contents = set c 0 (xs ++ fresh ∷ []) in
    let rt1 = allocated rt fresh in
    let b1 = allocated-Balanced owned out rt fresh (concat c) ne vacant bare b in
    let (_, rt', ran, post) = Ends-get (lock_push_back 0 fresh rt1) (
      lock_push_back-View rt1 c (allocated-View rt fresh ne c v nowhere) 0 xs at fresh
        (allocated-Live rt fresh ne) nowhere) in
    let b2 =
      same-Balanced owned out rt1.heap (fresh ∷ concat c) (concat c')
        (λ a. refs-concat-set owned a c 0 xs fresh at) (λ a. member-concat-set a c 0 xs fresh at)
        b1 in
    rw (run-steps rt rt' fresh ne ran)
      (post.0, Alike-Balanced owned out rt1.heap rt'.heap (concat c') post.2 b2)
