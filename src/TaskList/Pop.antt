-- ===== src/TaskList/Pop.antt =====
-- Popping takes the first task, or all of them, and writes nothing.
use yaay_rs.Base.{
  ◌≡◌, refl, ◌≢◌, beq_refl, beq-ne, List, [], ◌∷◌, none, some, Option, arith, ◌==◌, true, false,
  Bool,
}
use yaay_rs.Task.Heap.{Ptr, null, Heap, get_next}
use yaay_rs.TaskList.Defs.{TaskList, new, pop_front, is_empty, pop_all}
use yaay_rs.TaskList.Chain.{Links, Live, last, IsList, member-last, Chain-head}

abbrev pub first : List Ptr → Option Ptr
first [] = none
first (x ∷ xs) = some x

abbrev pub rest : List Ptr → List Ptr
rest [] = []
rest (x ∷ xs) = xs

abbrev pub empty : List Ptr → Bool
empty [] = true
empty (x ∷ xs) = false

get_next-Links : {h : Heap} {p q : Ptr} → Links h p q → get_next p h ≡ some (q, h)
unfolding get_next
get_next-Links v = ground (arith, v.live.ne_null, v.live.holds, v.next)

not_null : {h : Heap} {p : Ptr} → Live h p → (p == null) ≡ false
not_null v = ground (arith, v.ne_null)

module _ (h : Heap) (l : TaskList) where
  -- `pop_front` returns the first task, if there is one, leaves the others in their order, and
  -- writes to no task.
  pub pop_front-cons :
      (xs : List Ptr)
      → IsList h l xs
      → (l' : TaskList) × (pop_front l h ≡ some ((first xs, l'), h)) × IsList h l' (rest xs)
  unfolding pop_front
  pop_front-cons [] is = (l, rw is.0, is)
  pop_front-cons (p ∷ []) is = (new, rw (is.0, is.1, not_null is.2, beq_refl p), (refl, refl))
  pop_front-cons (p ∷ q ∷ xs) is =
      let apart : p ≢ last q xs = λ e. ground (arith, member-last q xs) in
      (
        record l { head = q },
        rw (is.0, is.1, not_null is.2.0.live, beq-ne p (last q xs) apart, get_next-Links is.2.0),
        (refl, is.1, is.2.2),
      )

  -- `is_empty` tells whether the list has no task.
  pub is_empty_lem : (xs : List Ptr) → IsList h l xs → is_empty l ≡ empty xs
  unfolding is_empty
  is_empty_lem [] is = rw is.0
  is_empty_lem (p ∷ xs) is = ground (arith, (Chain-head p xs is.2).ne_null)

  -- `pop_all` moves the whole list, and leaves an empty one.
  pub pop_all_lem :
      (xs : List Ptr) → IsList h l xs → IsList h (pop_all l).0 xs × IsList h (pop_all l).1 []
  unfolding pop_all
  pop_all_lem [] is = (is, (refl, refl))
  pop_all_lem (p ∷ xs) is = (is, (refl, refl))
