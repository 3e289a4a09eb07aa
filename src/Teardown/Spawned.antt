-- ===== src/Teardown/Spawned.antt =====
-- A task that is spawned keeps the books that the drop of the `WorkerGuard` relies on.
use yaay_rs.Base.{
  ℕ, zero, suc, ◌<◌, ◌≤◌, ◌+◌, ◌%◌, ◌≡◌, ◌≢◌, sym, ap, ◌∙◌, true, false, List, [], ◌∷◌, ◌++◌,
  Option, some, none, get_elem?, set, arith, ℕ_discrete,
}
use yaay_rs.Task.Heap.{Ptr, null, Heap, Task, new_task}
use yaay_rs.TaskList.Chain.{member, member-append, write-other}
use yaay_rs.TaskList.Alike.{rc_of}
use yaay_rs.Shared.State.{Runtime}
use yaay_rs.Shared.View.{Contents, View, Nowhere}
use yaay_rs.Shared.Locked.{Ends, Ends-get}
use yaay_rs.Shared.Alloc.{allocated, new_runs, allocated-Live, allocated-View, write_here}
use yaay_rs.Worker.Calls.{Private}
use yaay_rs.Worker.Calls
use yaay_rs.Worker.Targets.{nth_target}
use yaay_rs.Worker.Spawns.{IsWorker, spawn-View}
use yaay_rs.Entry.{spawn}
use yaay_rs.Teardown.{max_rc}
use yaay_rs.Teardown.Collect.{concat}
use yaay_rs.Teardown.Frees.{refs, Balanced, Alike-Balanced}

refs-append :
    (owned : Ptr → List Ptr) (a : Ptr) (xs ys : List Ptr)
    → refs owned a (xs ++ ys) ≡ refs owned a xs + refs owned a ys
refs-append owned a [] ys = omega arith
refs-append owned a (x ∷ xs) ys = omega (arith, refs-append owned a xs ys)

-- A task behind those of one queue, where the queues are joined.
pub refs-concat-set :
    (owned : Ptr → List Ptr) (a : Ptr) (c : Contents) (i : ℕ) (xs : List Ptr) (t : Ptr)
    → get_elem? c i ≡ some xs
    → refs owned a (concat (set c i (xs ++ t ∷ []))) ≡ refs owned a (t ∷ concat c)
refs-concat-set owned a [] i xs t at = absurd (ground arith)
refs-concat-set owned a (ys ∷ c) zero xs t at =
    let e : ys ≡ xs = cc in
    rw e (
      omega (
        arith,
        refs-append owned a (xs ++ t ∷ []) (concat c),
        refs-append owned a xs (t ∷ []),
        refs-append owned a xs (concat c),
      ))
refs-concat-set owned a (ys ∷ c) (suc i) xs t at = omega (
  arith,
  refs-append owned a ys (concat (set c i (xs ++ t ∷ []))),
  refs-append owned a ys (concat c),
  refs-concat-set owned a c i xs t at,
)

pub member-concat-set :
    (a : Ptr) (c : Contents) (i : ℕ) (xs : List Ptr) (t : Ptr)
    → get_elem? c i ≡ some xs
    → member a (concat (set c i (xs ++ t ∷ []))) ≡ member a (t ∷ concat c)
member-concat-set a [] i xs t at = absurd (ground arith)
member-concat-set a (ys ∷ c) zero xs t at =
    let e : ys ≡ xs = cc in
    rw e (
      ground (
        arith,
        member-append a (xs ++ t ∷ []) (concat c),
        member-append a xs (t ∷ []),
        member-append a xs (concat c),
      ))
member-concat-set a (ys ∷ c) (suc i) xs t at = ground (
  arith,
  member-append a ys (concat (set c i (xs ++ t ∷ []))),
  member-append a ys (concat c),
  member-concat-set a c i xs t at,
)

module _ (owned : Ptr → List Ptr) (out : Ptr → ℕ) (rt : Runtime) (fresh : Ptr) (xs : List Ptr)
    (ne : fresh ≢ null) (vacant : rt.heap fresh ≡ none) (bare : owned fresh ≡ []) where
  abbrev heap : Heap
  heap = (allocated rt fresh).heap

  -- What holds of every task after the allocation, given the others and the new one.
  allocated-cases :
      (P : Ptr → Option Task → Type 0)
      → P fresh (some new_task)
      → ((a : Ptr) → a ≢ fresh → P a (rt.heap a))
      → (a : Ptr) → P a (heap a)
  allocated-cases P new others a = elim (ℕ_discrete a fresh) [
    | yes e ↦ rw (e, write_here rt.heap fresh) new
    | no other ↦ rw (write-other rt.heap fresh (some new_task) a other) (others a other)
  ]

  -- The new task has one reference, that of the queue to come.
  pub allocated-Balanced : Balanced owned out rt.heap xs → Balanced owned out heap (fresh ∷ xs)
  allocated-Balanced b = record {
    sound = record {
      none_at_null =
          write-other rt.heap fresh (some new_task) null (λ e. ne (sym e)) ∙ b.sound.none_at_null;
      counted =
          allocated-cases (λ a o. (t : Task) → o ≡ some t → (0 < t.rc) × (t.rc ≤ max_rc))
            (λ t at. ground (arith, at)) (λ a other t at. b.sound.counted a t at);
    };
    undropped = λ x t m at.
        allocated-cases
          (λ a o. member a (fresh ∷ xs) ≡ true → o ≡ some t → t.status.dropped ≡ false)
          (λ _ at'. ground (arith, at'))
          (λ a other m' at'. b.undropped a t (ground (arith, m')) at') x m at;
    balance =
        allocated-cases (λ a o. rc_of o ≡ refs owned a (fresh ∷ xs) + out a)
          (ground (arith, bare, b.balance fresh, ap rc_of vacant))
          (λ a other. ground (arith, bare, b.balance a));
  }

-- The order of the tasks does not matter.
pub same-Balanced :
    (owned : Ptr → List Ptr) (out : Ptr → ℕ) (h : Heap) (xs ys : List Ptr)
    → ((a : Ptr) → refs owned a ys ≡ refs owned a xs)
    → ((a : Ptr) → member a ys ≡ member a xs)
    → Balanced owned out h xs
    → Balanced owned out h ys
same-Balanced owned out h xs ys same_refs same_member b = record {
  sound = b.sound;
  undropped = λ x t m at. b.undropped x t (sym (same_member x) ∙ m) at;
  balance = λ a. omega (arith, b.balance a, same_refs a);
}

spawn-run :
    (p p' : Private) (fresh : Ptr) (rt rt' : Runtime)
    → fresh ≢ null
    → Calls.spawn p fresh (allocated rt fresh) ≡ some (p', rt')
    → spawn p fresh rt ≡ some (p', rt')
unfolding spawn
spawn-run p p' fresh rt rt' ne ran = ground (arith, new_runs rt fresh ne, ran)

-- When the counts of all tasks are those of their references, they still are after `spawn`, on any
-- worker: the new task has one reference, by the queue that it is put in. It is allocated where no task
-- is, and its future holds no waker yet.
pub spawn-Balanced :
    (n w : ℕ) (p : Private) (fresh : Ptr) (rt : Runtime) (c : Contents) (xs : List Ptr)
    (owned : Ptr → List Ptr) (out : Ptr → ℕ)
    → IsWorker n w p
    → View rt c
    → fresh ≢ null
    → rt.heap fresh ≡ none
    → Nowhere fresh c
    → owned fresh ≡ []
    → get_elem? c (nth_target n w (p.seed % n)) ≡ some xs
    → Balanced owned out rt.heap (concat c)
    → Ends
        (λ p' rt'.
          View rt' (set c (nth_target n w (p.seed % n)) (xs ++ fresh ∷ []))
          × Balanced owned out rt'.heap
              (concat (set c (nth_target n w (p.seed % n)) (xs ++ fresh ∷ []))))
        (spawn p fresh rt)
spawn-Balanced n w p fresh rt c xs owned out is v ne vacant nowhere bare at b =
    let t : ℕ = nth_target n w (p.seed % n) in
    let c' : Contents = set c t (xs ++ fresh ∷ []) in
    let rt1 = allocated rt fresh in
    let b1 = allocated-Balanced owned out rt fresh (concat c) ne vacant bare b in
    let (p', rt', ran, post) = Ends-get (Calls.spawn p fresh rt1) (
      spawn-View n w p fresh rt1 c xs is (allocated-View rt fresh ne c v nowhere)
        (allocated-Live rt fresh ne) nowhere at) in
    let b2 =
      same-Balanced owned out rt1.heap (fresh ∷ concat c) (concat c')
        (λ a. refs-concat-set owned a c t xs fresh at) (λ a. member-concat-set a c t xs fresh at)
        b1 in
    rw (spawn-run p p' fresh rt rt' ne ran)
      (post.1, Alike-Balanced owned out rt1.heap rt'.heap (concat c') post.3 b2)
