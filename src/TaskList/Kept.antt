-- ===== src/TaskList/Kept.antt =====
-- A change of tasks that keeps each task of a list alive and its `next` pointer keeps the list.
use yaay_rs.Base.{◌≡◌, ◌∙◌, List, [], ◌∷◌, true, arith}
use yaay_rs.Task.Heap.{Ptr, Heap}
use yaay_rs.TaskList.Defs.{TaskList}
use yaay_rs.TaskList.Chain.{member, Live, Chain, IsList}

-- Task `a` lives in `g` as well, with the same `next`.
abbrev pub Kept : Heap → Heap → Ptr → Type 0
Kept h g a = (v : Live h a) → (w : Live g a) × (w.here.next ≡ v.here.next)

module _ {h g : Heap} where
  Chain-Kept :
      (q : Ptr) (xs : List Ptr)
      → ((a : Ptr) → member a (q ∷ xs) ≡ true → Kept h g a)
      → Chain h q xs
      → Chain g q xs
  Chain-Kept q [] kept c = (kept q (ground arith) c).0
  Chain-Kept q (x ∷ xs) kept c =
      let (live, next) = kept q (ground arith) c.0.live in
      (
        record { live = live; next = next ∙ c.0.next },
        c.1,
        Chain-Kept x xs (λ a m. kept a (ground arith)) c.2,
      )

  pub IsList-Kept :
      (l : TaskList) (xs : List Ptr)
      → ((a : Ptr) → member a xs ≡ true → Kept h g a)
      → IsList h l xs
      → IsList g l xs
  IsList-Kept l [] kept is = is
  IsList-Kept l (x ∷ xs) kept is = (is.0, is.1, Chain-Kept x xs kept is.2)
