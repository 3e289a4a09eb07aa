-- ===== src/Wake/Marked.antt =====
-- The first access of a wake, and what it leads to.
use yaay_rs.Base.{◌≡◌, true, false, Option, some, arith, ◌∙◌, ap}
use yaay_rs.Task.Status.{Status, muted_bit, notified_bit, or_bits}
use yaay_rs.Task.Heap.{Ptr, Heap, Task, load, store, write, get_worker_id}
use yaay_rs.Task.Protocol.{is_settled}
use yaay_rs.TaskList.Chain.{Live, write-other}
use yaay_rs.Shared.State.{Runtime, on_heap}
use yaay_rs.Wake.{Local, fetch_or, schedule, wake}
use yaay_rs.Wake.Restatus.{Restatus}

-- The status after a wake.
abbrev pub notified : Status → Status
notified s = or_bits s (or_bits muted_bit notified_bit)

-- The heap after the first access of `wake`.
abbrev pub marked : Heap → Ptr → Task → Heap
marked h p t = write h p (some (record t { status = notified t.status }))

pub write-same : (h : Heap) (p : Ptr) (t : Option Task) → write h p t p ≡ t
unfolding write
write-same h p t = ground arith

pub marked-Restatus :
    (h : Heap) (p : Ptr) (v : Live h p) → Restatus h p (notified v.here.status) (marked h p v.here)
marked-Restatus h p v = record {
  same = λ a ne. write-other h p _ a ne;
  changed = λ t at.
      let e : v.here ≡ t = cc (v.holds) in
      write-same h p _ ∙ ap {A = Task} (λ u. some (record u { status = notified v.here.status })) e;
}

fetch_or-run :
    (h : Heap) (p : Ptr) (b : Status) (v : Live h p)
    → fetch_or p b h
      ≡ some
          (v.here.status, write h p (some (record (v.here) { status = or_bits v.here.status b })))
unfolding fetch_or load store
fetch_or-run h p b v = ground (arith, v.holds, v.ne_null)

get_worker_id-run :
    (h : Heap) (p : Ptr) (v : Live h p) → get_worker_id p h ≡ some (v.here.worker_id, h)
unfolding get_worker_id load
get_worker_id-run h p v = ground (arith, v.holds, v.ne_null)

pub marked-Live : (h : Heap) (p : Ptr) (v : Live h p) → Live (marked h p v.here) p
marked-Live h p v = record {
  ne_null = v.ne_null;
  here = record (v.here) { status = notified v.here.status };
  holds = write-same h p _;
}

module _ (rt : Runtime) (task : Ptr) (v : Live rt.heap task) where
  abbrev pub marked_rt : Runtime
  marked_rt = record rt { heap = marked rt.heap task v.here }

  pub wake-settled :
      (local : Local)
      → is_settled v.here.status ≡ true
      → wake local task rt ≡ some (local, marked_rt)
  unfolding wake
  wake-settled local e =
      rw (fetch_or-run rt.heap task (or_bits muted_bit notified_bit) v, on_heap, e)

  pub wake-schedule :
      (local : Local)
      → is_settled v.here.status ≡ false
      → wake local task rt ≡ schedule local v.here.worker_id task marked_rt
  unfolding wake marked-Live
  wake-schedule local e = rw (
    fetch_or-run rt.heap task (or_bits muted_bit notified_bit) v,
    on_heap,
    e,
    get_worker_id-run _ task (marked-Live rt.heap task v),
    on_heap,
  )
