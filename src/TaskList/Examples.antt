-- ===== src/TaskList/Examples.antt =====
-- Lists of three tasks, runs of the operations, and the theorems at these lists.
use yaay_rs.Base.{zero, suc, ◌≡◌, ◌≢◌, refl, [], ◌∷◌, none, some, arith}
use yaay_rs.Task.Heap.{Ptr, null, Heap, Task, Cmd, new_task, write, get_next, load}
use yaay_rs.TaskList.Defs.{TaskList, task_list, drain}
use yaay_rs.TaskList.Chain.{Live, IsList, Returns}

abbrev linked : Ptr → Task
linked q = record new_task { next = q }

-- Tasks 1 and 2 are linked; task 3 stands alone, with a stale `next`.
abbrev heap : Heap
heap = λ p. elim p [
  | suc (suc (suc zero)) ↦ some (linked 2)
  | suc (suc zero) ↦ some (linked 0)
  | suc zero ↦ some (linked 2)
  | _ ↦ none
]

abbrev pair : TaskList
pair = task_list 1 2

abbrev single : TaskList
single = task_list 3 3

one-ne_null : 1 ≢ null
one-ne_null = omega arith

two-ne_null : 2 ≢ null
two-ne_null = omega arith

three-ne_null : 3 ≢ null
three-ne_null = omega arith

abbrev live_one : Live heap 1
live_one = record { ne_null = one-ne_null; here = linked 2; holds = refl }

abbrev live_two : Live heap 2
live_two = record { ne_null = two-ne_null; here = linked 0; holds = refl }

abbrev live_three : Live heap 3
live_three = record { ne_null = three-ne_null; here = linked 2; holds = refl }

abbrev pair-IsList : IsList heap pair (1 ∷ 2 ∷ [])
pair-IsList = (refl, refl, (record { live = live_one; next = refl }, refl, live_two))

abbrev single-IsList : IsList heap single (3 ∷ [])
single-IsList = (refl, refl, live_three)

-- A body that frees its task.
discard : Ptr → Cmd (Unit {0})
unfolding write
discard p h = some (tt, write h p none)

-- The stale `next` of the last task is never followed.
drain_run : Returns (λ _ g. (g 1 ≡ none) × (g 2 ≡ none)) (drain 3 pair discard heap)
unfolding drain discard get_next load
drain_run = (refl, refl)
