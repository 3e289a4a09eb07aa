-- ===== src/Wake/Examples.antt =====
-- The two workers of Worker/Examples: task 1 is queued, and task 2 is parked.
use yaay_rs.Base.{◌∙◌, refl, [], ◌∷◌, some, arith}
use yaay_rs.Task.Status.{no_bits}
use yaay_rs.Task.Heap.{Heap, Task, new_task, write}
use yaay_rs.TaskList.Chain.{Live, write-other}
use yaay_rs.Shared.State.{Runtime}
use yaay_rs.Shared.View.{View}
use yaay_rs.Shared.Locked.{Ends}
use yaay_rs.Worker.Examples.{heap, rt, contents, rt-View, two-ne_null}
use yaay_rs.Wake.{nothing, wake}
use yaay_rs.Wake.Restatus.{Restatus, Holds-restatus}
use yaay_rs.Wake.Marked.{write-same}
use yaay_rs.Wake.Laws.{Bits, Scheduled, wake-Scheduled}
use yaay_rs.Wake.Guard.{guarded_wake, guarded_wake-Scheduled}

abbrev pub parked : Task
parked = record new_task { status = no_bits }

abbrev pub parked_heap : Heap
parked_heap = write heap 2 (some parked)

parked_heap-Restatus : Restatus heap 2 no_bits parked_heap
parked_heap-Restatus = record {
  same = λ a ne. write-other heap 2 _ a ne;
  changed = λ t at. write-same heap 2 _ ∙ ground arith;
}

abbrev pub parked_rt : Runtime
parked_rt = record rt { heap = parked_heap }

pub parked_rt-View : View parked_rt contents
parked_rt-View = Holds-restatus parked_heap-Restatus rt-View

abbrev pub live_parked : Live parked_heap 2
live_parked = record { ne_null = two-ne_null; here = parked; holds = write-same heap 2 _ }

wake-Scheduled_example :
    Ends
      (λ local' rt'.
        Scheduled nothing parked_rt contents [] 0 (1 ∷ []) 2 local' rt' × Bits no_bits 2 rt')
      (wake nothing 2 parked_rt)
wake-Scheduled_example =
    wake-Scheduled nothing parked_rt contents [] (1 ∷ []) 2 live_parked refl parked_rt-View
      (refl, (refl, tt)) tt refl

guarded_wake-Scheduled_example :
    Ends (Scheduled nothing parked_rt contents [] 0 (1 ∷ []) 2) (guarded_wake nothing 2 parked_rt)
guarded_wake-Scheduled_example =
    guarded_wake-Scheduled parked_rt contents (1 ∷ []) 2 live_parked refl parked_rt-View
      (refl, (refl, tt)) refl
