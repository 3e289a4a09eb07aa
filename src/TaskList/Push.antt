-- ===== src/TaskList/Push.antt =====
-- Pushing at either end is concatenation, and writes one `next` pointer at most.
use mathlib.Core.List.{append-nil}
use yaay_rs.Base.{◌≡◌, refl, sym, ◌∙◌, List, [], ◌∷◌, ◌++◌, arith, ◌==◌, false}
use yaay_rs.Task.Heap.{Ptr, null, Heap}
use yaay_rs.TaskList.Defs.{
  TaskList, task_list, push_back_batch, push_back, push_front_batch, push_front,
}
use yaay_rs.TaskList.Chain.{
  Absent, Disjoint, Live, IsList, Relinked, Returns, last-append, last-Live, Chain-head,
  relink-Relinked, join-Chain, set_next-Live,
}

-- What a push does to the list `l` of `xs`: the result is the list of `zs`, and only `next` of `p`
-- may have changed.
abbrev pub Pushed : Ptr → Heap → List Ptr → TaskList → Heap → Type 0
Pushed p h zs l g = IsList g l zs × Relinked p h g

Relinked-refl : (p : Ptr) (h : Heap) → Relinked p h h
Relinked-refl p h = (λ a ne. refl, λ t e. (t.next, e))

not_null : {h : Heap} {p : Ptr} → Live h p → (p == null) ≡ false
not_null v = ground (arith, v.ne_null)

pub Disjoint-of_Absent : (xs : List Ptr) (y : Ptr) → Absent y xs → Disjoint xs (y ∷ [])
Disjoint-of_Absent [] y out = tt
Disjoint-of_Absent (x ∷ xs) y out = (ground arith, Disjoint-of_Absent xs y (ground arith))

module _ (h : Heap) (l tasks : TaskList) where
  -- `push_back_batch` of a non-empty list puts its tasks behind the others, in their order, and
  -- changes at most the `next` pointer of the old tail.
  pub push_back_batch-append :
      (xs : List Ptr) (y : Ptr) (ys : List Ptr)
      → IsList h l xs
      → IsList h tasks (y ∷ ys)
      → Disjoint xs (y ∷ ys)
      → Returns (Pushed l.tail h (xs ++ y ∷ ys)) (push_back_batch l tasks h)
  unfolding push_back_batch
  push_back_batch-append [] y ys is more apart = rw is.1 (more, Relinked-refl null h)
  push_back_batch-append (p ∷ xs) y ys is more apart =
      let v = last-Live p xs is.2 in
      rw (is.1, more.0, not_null v, set_next-Live y v)
        (
          (is.0, more.1 ∙ sym (last-append p y xs ys), join-Chain p xs y ys is.2 more.2 apart v),
          relink-Relinked y v,
        )

  -- `push_front_batch` of a non-empty list puts its tasks in front of the others, in their order,
  -- and changes at most the `next` pointer of the new list's tail.
  pub push_front_batch-append :
      (y : Ptr) (ys xs : List Ptr)
      → IsList h l xs
      → IsList h tasks (y ∷ ys)
      → Disjoint (y ∷ ys) xs
      → Returns (Pushed tasks.tail h (y ∷ ys ++ xs)) (push_front_batch l tasks h)
  unfolding push_front_batch
  push_front_batch-append y ys [] is more apart =
      rw (is.0, append-nil) (more, Relinked-refl tasks.tail h)
  push_front_batch-append y ys (p ∷ xs) is more apart =
      let v = last-Live y ys more.2 in
      rw (is.0, more.1, not_null (Chain-head p xs is.2), set_next-Live p v)
        (
          (more.0, is.1 ∙ sym (last-append y p ys xs), join-Chain y ys p xs more.2 is.2 apart v),
          relink-Relinked p v,
        )

module _ (h : Heap) (l : TaskList) where
  single : (task : Ptr) → Live h task → IsList h (task_list task task) (task ∷ [])
  single task v = (refl, refl, v)

  -- `push_back` adds one task at the end, and changes at most the `next` pointer of the old tail.
  pub push_back-append :
      (xs : List Ptr) (task : Ptr)
      → IsList h l xs
      → Live h task
      → Absent task xs
      → Returns (Pushed l.tail h (xs ++ task ∷ [])) (push_back l task h)
  unfolding push_back
  push_back-append xs task is v out =
      push_back_batch-append h l (task_list task task) xs task [] is (single task v)
        (Disjoint-of_Absent xs task out)

  -- `push_front` adds one task in front, and changes at most that task's `next` pointer.
  pub push_front-cons :
      (xs : List Ptr) (task : Ptr)
      → IsList h l xs
      → Live h task
      → Absent task xs
      → Returns (Pushed task h (task ∷ xs)) (push_front l task h)
  unfolding push_front
  push_front-cons xs task is v out =
      push_front_batch-append h l (task_list task task) task [] xs is (single task v) (out, tt)
