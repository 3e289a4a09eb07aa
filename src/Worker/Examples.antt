-- ===== src/Worker/Examples.antt =====
-- Two workers, the first with one task in its queue, and the theorems on `spawn` and `try_steal` there.
use yaay_rs.Base.{
  ℕ, ◌-◌, List, ◌++◌, zero, suc, ◌%◌, ◌≡◌, ◌≢◌, refl, [], ◌∷◌, some, none, set, if◌then◌else◌, ◌==◌,
  arith, get_elem?,
}
use yaay_rs.Task.Heap.{Ptr, null, Heap, new_task}
use yaay_rs.TaskList.Defs.{TaskList, task_list}
use yaay_rs.TaskList.Chain.{Live, IsList, Disjoint}
use yaay_rs.Epoch.Defs.{next_epoch}
use yaay_rs.TaskList.Alike.{Alike}
use yaay_rs.Shared.State.{Runtime}
use yaay_rs.Shared.View.{Contents, View}
use yaay_rs.Shared.Locked.{Ends}
use yaay_rs.Worker.Peers.{other_workers}
use yaay_rs.Worker.Targets.{spawn_target, nth_target, seed_after, spawn_target-constant}
use yaay_rs.Worker.Calls.{Private, new, spawn, try_steal}
use yaay_rs.Worker.Steals.{victim, Stolen, try_steal-View}
use yaay_rs.Worker.Spawns.{IsWorker, Reseeded, spawn-View}

-- Tasks 1 and 2.
abbrev pub heap : Heap
heap = λ p. elim p [ suc (suc zero) ↦ some new_task | suc zero ↦ some new_task | _ ↦ none ]

abbrev pub rt : Runtime
rt = record { heap = heap; queues = task_list 1 1 ∷ task_list 0 0 ∷ []; status = 2; unparks = 0 }

abbrev pub contents : Contents
contents = (1 ∷ []) ∷ [] ∷ []

pub one-ne_null : 1 ≢ null
one-ne_null = omega arith

pub two-ne_null : 2 ≢ null
two-ne_null = omega arith

abbrev pub live_one : Live heap 1
live_one = record { ne_null = one-ne_null; here = new_task; holds = refl }

abbrev pub live_two : Live heap 2
live_two = record { ne_null = two-ne_null; here = new_task; holds = refl }

rt-IsList :
    (i : ℕ) (l : TaskList) (xs : List Ptr)
    → get_elem? rt.queues i ≡ some l
    → get_elem? contents i ≡ some xs
    → IsList heap l xs
rt-IsList zero l xs at_q at_c =
    let e_l : task_list 1 1 ≡ l = cc in
    let e_x : 1 ∷ [] ≡ xs = cc in rw (← e_l, ← e_x) (refl, refl, live_one)
rt-IsList (suc zero) l xs at_q at_c =
    let e_l : task_list 0 0 ≡ l = cc in let e_x : [] ≡ xs = cc in rw (← e_l, ← e_x) (refl, refl)
rt-IsList (suc (suc i)) l xs at_q at_c = absurd (ground arith)

pub rt-Disjoint :
    (i j : ℕ) (xs ys : List Ptr)
    → i ≢ j
    → get_elem? contents i ≡ some xs
    → get_elem? contents j ≡ some ys
    → Disjoint xs ys
rt-Disjoint zero zero xs ys ne at_i at_j = absurd (ne refl)
rt-Disjoint zero (suc zero) xs ys ne at_i at_j =
    let e_x : 1 ∷ [] ≡ xs = cc in let e_y : [] ≡ ys = cc in rw (← e_x, ← e_y) (refl, tt)
rt-Disjoint zero (suc (suc j)) xs ys ne at_i at_j = absurd (ground arith)
rt-Disjoint (suc zero) j xs ys ne at_i at_j = let e_x : [] ≡ xs = cc in rw (← e_x) tt
rt-Disjoint (suc (suc i)) j xs ys ne at_i at_j = absurd (ground arith)

pub rt-View : View rt contents
rt-View = record { sized = refl; lists = rt-IsList; apart = rt-Disjoint }

-- Worker 0 of the two, with a seed that selects worker 1.
abbrev pub worker : Private
worker = new 0 2 (other_workers 2 0) 4

pub worker-IsWorker : IsWorker 2 0 worker
unfolding new
worker-IsWorker = record { id = refl; in_range = omega arith; count = refl; peers = refl }

spawn_target-constant_example : spawn_target 2 0 (seed_after 3 5) ≡ spawn_target 2 0 5
spawn_target-constant_example = spawn_target-constant 2 0 3 5 ∣ (16, refl) ∣₁

spawn-View_example :
    Ends
      (λ p' rt'.
        Reseeded worker p'
        × View rt' (set contents (nth_target 2 0 (worker.seed % 2)) ([] ++ 2 ∷ []))
        × (rt'.status ≡ (
            if nth_target 2 0 (worker.seed % 2) == 0
            then rt.status
            else (next_epoch rt.status).word))
        × Alike rt.heap rt'.heap)
      (spawn worker 2 rt)
unfolding new
spawn-View_example =
    spawn-View 2 0 worker 2 rt contents [] worker-IsWorker rt-View live_two (refl, (refl, tt)) refl

-- Worker 1 steals from worker 0.
abbrev thief : Private
thief = new 1 2 (other_workers 2 1) 4

thief-IsWorker : IsWorker 2 1 thief
unfolding new
thief-IsWorker = record { id = refl; in_range = omega arith; count = refl; peers = refl }

try_steal-View_example :
    (victim 1 (thief.seed % (2 - 1)) ≢ 1)
    × Ends
        (Stolen thief rt contents (victim 1 (thief.seed % (2 - 1))) (1 ∷ []))
        (try_steal thief rt)
unfolding new
try_steal-View_example =
    try_steal-View 2 1 thief rt contents (1 ∷ []) thief-IsWorker (omega arith) rt-View refl
