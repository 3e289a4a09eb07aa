-- ===== src/TaskList/Drain.antt =====
-- A loop over a list runs its body on each task once, from the first to the last.
use yaay_rs.Base.{ℕ, zero, suc, ◌<◌, ◌≡◌, refl, true, List, [], ◌∷◌, some, arith, length}
use yaay_rs.Task.Heap.{Ptr, Heap, Cmd, pure, ◌>>◌}
use yaay_rs.TaskList.Defs.{TaskList, drain}
use yaay_rs.TaskList.Chain.{member, IsList, Absent}
use yaay_rs.TaskList.Kept.{Kept, IsList-Kept}
use yaay_rs.TaskList.Pop.{pop_front-cons}

-- The body on each task of a sequence, in order.
unfoldable pub each : (Ptr → Cmd (Unit {0})) → List Ptr → Cmd (Unit {0})
each body [] = pure tt
each body (x ∷ xs) = body x >> each body xs

pub head-Absent :
    (h : Heap) (l : TaskList) (x : Ptr) (xs : List Ptr) → IsList h l (x ∷ xs) → Absent x xs
head-Absent h l x [] is = refl
head-Absent h l x (q ∷ xs) is = is.2.1

-- The loop `for task in list` ends without a fault, and runs its body on the tasks of the list in their
-- order, if the body, on a task of the list and the rest of the list, ends without a fault in a state
-- where the tasks of the rest live with the same `next`. It may free the task that it is given, and
-- change and free any task outside of the rest. `Q` is what the body needs and keeps.
pub drain-each :
    (Q : List Ptr → Heap → Type 0) (body : Ptr → Cmd (Unit {0})) (k : ℕ) (h : Heap) (l : TaskList)
    (xs : List Ptr)
    → ((x : Ptr) (rest : List Ptr) (h1 : Heap)
        → Absent x rest
        → Q (x ∷ rest) h1
        → (g : Heap) × (body x h1 ≡ some (tt, g))
          × Q rest g
          × ((a : Ptr) → member a rest ≡ true → Kept h1 g a))
    → Q xs h
    → IsList h l xs
    → length xs < k
    → (g : Heap) × (drain k l body h ≡ some (tt, g)) × (each body xs h ≡ some (tt, g)) × Q [] g
unfolding drain each
drain-each Q body zero h l xs step q is enough = absurd (omega arith)
drain-each Q body (suc k) h l [] step q is enough =
    let (l', popped, is') = pop_front-cons h l [] is in (h, rw popped refl, refl, q)
drain-each Q body (suc k) h l (x ∷ xs) step q is enough =
    let (l', popped, is') = pop_front-cons h l (x ∷ xs) is in
    let (g, ran, q', kept) = step x xs h (head-Absent h l x xs is) q in
    let (g', ran', same, done) =
      drain-each Q body k g l' xs step q' (IsList-Kept l' xs kept is') (omega arith) in
    (g', rw (popped, ran) ran', rw (ran, ◌>>◌) same, done)
