-- ===== src/Teardown/Examples.antt =====
-- The two workers of Worker/Examples at the end, where the future of task 1 holds a waker of task 2.
use yaay_rs.Base.{
  ◌≢◌, ◌%◌, ◌++◌, set, ℕ, zero, suc, ◌+◌, ◌<◌, ◌≤◌, ◌≡◌, refl, false, List, [], ◌∷◌, some, none,
  arith,
}
use yaay_rs.Task.Heap.{Ptr, Heap, Cmd, Task}
use yaay_rs.TaskList.Alike.{rc_of}
use yaay_rs.TaskList.Drain.{each, drain-each}
use yaay_rs.TaskList.Defs.{TaskList, task_list, drain}
use yaay_rs.TaskList.Chain.{IsList}
use yaay_rs.Teardown.Started.{run-Balanced}
use yaay_rs.Teardown.{max_rc, rc_dec, release, run, teardown}
use yaay_rs.Teardown.Counts.{Sound}
use yaay_rs.Teardown.Collect.{concat}
use yaay_rs.Teardown.Frees.{refs, Balanced, release-Balanced, teardown-frees}
use yaay_rs.Worker.Examples.{live_one, heap, rt, contents, rt-View, worker, worker-IsWorker}
use yaay_rs.Worker.Calls.{new}
use yaay_rs.Worker.Targets.{nth_target}
use yaay_rs.Shared.View.{View}
use yaay_rs.Shared.Locked.{Ends}
use yaay_rs.Entry.{spawn}
use yaay_rs.Teardown.Spawned.{spawn-Balanced}
use yaay_rs.Task.Heap.{null}

abbrev owned : Ptr → List Ptr
owned p = elim p [ suc zero ↦ 2 ∷ [] | _ ↦ [] ]

abbrev nobody : Ptr → ℕ
nobody p = 0

abbrev drop_wakers : Ptr → Cmd (Unit {0})
drop_wakers p = each rc_dec (owned p)

heap-Sound : Sound heap
heap-Sound = record { none_at_null = refl; counted = λ a t at. go a t at }
  where
    go : (a : Ptr) (t : Task) → heap a ≡ some t → (0 < t.rc) × (t.rc ≤ max_rc)
    go zero t at = absurd (ground arith)
    go (suc zero) t at = ground arith
    go (suc (suc zero)) t at = ground arith
    go (suc (suc (suc a))) t at = absurd (ground arith)

heap-undropped : (x : Ptr) (t : Task) → heap x ≡ some t → t.status.dropped ≡ false
heap-undropped zero t at = absurd (ground arith)
heap-undropped (suc zero) t at = ground arith
heap-undropped (suc (suc zero)) t at = ground arith
heap-undropped (suc (suc (suc x))) t at = absurd (ground arith)

heap-refs : (a : Ptr) → rc_of (heap a) ≡ refs owned a (1 ∷ []) + nobody a
heap-refs zero = ground arith
heap-refs (suc zero) = ground arith
heap-refs (suc (suc zero)) = ground arith
heap-refs (suc (suc (suc a))) = ground arith

heap-Balanced : Balanced owned nobody rt.heap (concat contents)
heap-Balanced = record {
  sound = heap-Sound;
  undropped = λ x t m. heap-undropped x t;
  balance = heap-refs;
}

teardown-frees_example :
    (g : Heap) × (teardown 2 drop_wakers rt ≡ some g)
    × ((a : Ptr) → (rc_of (g a) ≡ nobody a) × (nobody a ≡ 0 → g a ≡ none))
teardown-frees_example =
    teardown-frees rt contents drop_wakers owned nobody 2 rt-View heap-Balanced (λ x. refl)
      (omega arith)

three-ne_null : 3 ≢ null
three-ne_null = omega arith

spawn-Balanced_example :
    Ends
      (λ p' rt'.
        View rt' (set contents (nth_target 2 0 (worker.seed % 2)) ([] ++ 3 ∷ []))
        × Balanced owned nobody rt'.heap
            (concat (set contents (nth_target 2 0 (worker.seed % 2)) ([] ++ 3 ∷ []))))
      (spawn worker 3 rt)
unfolding new
spawn-Balanced_example =
    spawn-Balanced 2 0 worker 3 rt contents [] owned nobody worker-IsWorker rt-View three-ne_null
      refl (refl, (refl, tt)) refl refl heap-Balanced

abbrev queue : TaskList
queue = task_list 1 1

abbrev queue-IsList : IsList heap queue (1 ∷ [])
queue-IsList = (refl, refl, live_one)

-- The queue of worker 0, whose task holds the only waker of task 2
drain-each_example :
    (g : Heap) × (drain 2 queue (release drop_wakers) heap ≡ some (tt, g))
    × (each (release drop_wakers) (1 ∷ []) heap ≡ some (tt, g))
    × Balanced owned nobody g []
drain-each_example =
    drain-each (λ xs h. Balanced owned nobody h xs) (release drop_wakers) 2 heap queue (1 ∷ [])
      (release-Balanced drop_wakers owned nobody (λ x. refl)) heap-Balanced queue-IsList
      (omega arith)

run-Balanced_example :
    Ends
      (λ _ rt'.
        View rt' (set contents 0 ((1 ∷ []) ++ 3 ∷ []))
        × Balanced owned nobody rt'.heap (concat (set contents 0 ((1 ∷ []) ++ 3 ∷ []))))
      (run 3 rt)
run-Balanced_example =
    run-Balanced 3 rt contents (1 ∷ []) owned nobody rt-View three-ne_null refl (refl, (refl, tt))
      refl refl heap-Balanced
