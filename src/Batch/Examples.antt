-- ===== src/Batch/Examples.antt =====
-- The two workers of Worker/Examples, and a reactor thread that has task 2 for worker 1.
use yaay_rs.Base.{ℕ, zero, suc, ◌≡◌, ◌≢◌, refl, List, [], ◌∷◌, some, get_elem?, arith}
use yaay_rs.Task.Heap.{Ptr}
use yaay_rs.TaskList.Defs.{TaskList, task_list}
use yaay_rs.TaskList.Chain.{IsList, Disjoint}
use yaay_rs.Shared.View.{Contents}
use yaay_rs.Shared.Locked.{Ends}
use yaay_rs.Batch.{push_batch}
use yaay_rs.Batch.Split.{Split}
use yaay_rs.Batch.Laws.{zip, all_empty, Delivered, push_batch-View}
use yaay_rs.Worker.Examples.{heap, rt, contents, rt-View, live_two}

abbrev lists : List TaskList
lists = task_list 0 0 ∷ task_list 2 2 ∷ []

abbrev collected : Contents
collected = [] ∷ (2 ∷ []) ∷ []

lists-IsList :
    (i : ℕ) (l : TaskList) (xs : List Ptr)
    → get_elem? lists i ≡ some l
    → get_elem? collected i ≡ some xs
    → IsList heap l xs
lists-IsList zero l xs at_q at_c =
    let e_l : task_list 0 0 ≡ l = cc in let e_x : [] ≡ xs = cc in rw (← e_l, ← e_x) (refl, refl)
lists-IsList (suc zero) l xs at_q at_c =
    let e_l : task_list 2 2 ≡ l = cc in
    let e_x : 2 ∷ [] ≡ xs = cc in rw (← e_l, ← e_x) (refl, refl, live_two)
lists-IsList (suc (suc i)) l xs at_q at_c = absurd (ground arith)

lists-Disjoint :
    (i j : ℕ) (xs ys : List Ptr)
    → i ≢ j
    → get_elem? collected i ≡ some xs
    → get_elem? collected j ≡ some ys
    → Disjoint xs ys
lists-Disjoint zero j xs ys ne at_i at_j = let e_x : [] ≡ xs = cc in rw (← e_x) tt
lists-Disjoint (suc zero) zero xs ys ne at_i at_j =
    let e_x : 2 ∷ [] ≡ xs = cc in let e_y : [] ≡ ys = cc in rw (← e_x, ← e_y) (refl, tt)
lists-Disjoint (suc zero) (suc zero) xs ys ne at_i at_j = absurd (ne refl)
lists-Disjoint (suc zero) (suc (suc j)) xs ys ne at_i at_j = absurd (ground arith)
lists-Disjoint (suc (suc i)) j xs ys ne at_i at_j = absurd (ground arith)

lists-cross :
    (i j : ℕ) (xs ys : List Ptr)
    → get_elem? contents i ≡ some xs
    → get_elem? collected j ≡ some ys
    → Disjoint xs ys × Disjoint ys xs
lists-cross zero zero xs ys at_i at_j =
    let e_x : 1 ∷ [] ≡ xs = cc in let e_y : [] ≡ ys = cc in rw (← e_x, ← e_y) ((refl, tt), tt)
lists-cross zero (suc zero) xs ys at_i at_j =
    let e_x : 1 ∷ [] ≡ xs = cc in
    let e_y : 2 ∷ [] ≡ ys = cc in rw (← e_x, ← e_y) ((refl, tt), (refl, tt))
lists-cross (suc zero) zero xs ys at_i at_j =
    let e_x : [] ≡ xs = cc in let e_y : [] ≡ ys = cc in rw (← e_x, ← e_y) (tt, tt)
lists-cross (suc zero) (suc zero) xs ys at_i at_j =
    let e_x : [] ≡ xs = cc in let e_y : 2 ∷ [] ≡ ys = cc in rw (← e_x, ← e_y) (tt, (refl, tt))
lists-cross (suc (suc i)) j xs ys at_i at_j = absurd (ground arith)
lists-cross i (suc (suc j)) xs ys at_i at_j = absurd (ground arith)

lists-Split : Split rt.heap rt.queues contents lists collected
lists-Split = record {
  queues = rt-View;
  locals = record { sized = refl; lists = lists-IsList; apart = lists-Disjoint };
  cross = lists-cross;
}

push_batch-View_example :
    Ends (Delivered rt (zip contents collected) (all_empty collected)) (push_batch lists rt)
push_batch-View_example = push_batch-View rt contents lists collected refl lists-Split
