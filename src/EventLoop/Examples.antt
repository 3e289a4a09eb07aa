-- ===== src/EventLoop/Examples.antt =====
-- The workers of Wake/Examples, where task 2 is parked on the readable dispatcher of slot 3, and a
-- reactor thread with an event for it; slot 5 is to be removed.
use yaay_rs.Base.{
  ℕ, Bool, zero, suc, ◌<◌, ◌≤◌, ◌≡◌, ◌⊎◌, inl, inr, ◌∙◌, refl, sym, ap, true, false, List, [], ◌∷◌,
  some, none, total, arith, ◌==◌, if◌then◌else◌,
}
use yaay_rs.Task.Heap.{Ptr, null, new_task}
use yaay_rs.Task.Protocol.{is_settled}
use yaay_rs.TaskList.Defs.{TaskList, task_list}
use yaay_rs.TaskList.Chain.{Live, write-other}
use yaay_rs.Shared.View.{Nowhere}
use yaay_rs.Worker.Examples.{heap, contents}
use yaay_rs.Wake.{nothing, batch}
use yaay_rs.Wake.Marked.{write-same}
use yaay_rs.Wake.Examples.{parked, parked_heap, parked_rt, parked_rt-View, live_parked}
use yaay_rs.Dispatcher.{bits}
use yaay_rs.Registry.{Slab, slot}
use yaay_rs.RuntimeApi.MtRuntime.{mt_runtime}
use yaay_rs.EventLoop.{Inner, Inners, Event, LoopState, dispatch_all}
use yaay_rs.EventLoop.Facts.{Parked, Good, Next, held}
use yaay_rs.EventLoop.Flush.{cleared, cleared-Split}
use yaay_rs.EventLoop.Dispatching.{Wired}
use yaay_rs.EventLoop.Thread.{Others}
use yaay_rs.EventLoop.Ends.{Orderly, Ended, reactor-Ended}
use yaay_rs.EventLoop.Round.{Served, round-Served, dispatch_all-held}

abbrev lists : List TaskList
lists = task_list null null ∷ task_list null null ∷ []

abbrev inner : Inner
inner = record { status = bits false false; waker = 2 }

abbrev inners : Inners
inners p = if p == 7 then some inner else none

abbrev slab : Slab
slab k = if k == 3 then some (slot 7 null) else (if k == 5 then some (slot null null) else none)

abbrev event : Event
event = record { token = 3; readable = true; writable = false }

abbrev state : LoopState
state = record { rt = parked_rt; local = batch lists; inners = inners }

parked_heap-cases :
    (p : Ptr) (v : Live parked_heap p)
    → ((p ≡ 1) × (v.here ≡ new_task)) ⊎ ((p ≡ 2) × (v.here ≡ parked))
parked_heap-cases zero v = absurd (v.ne_null refl)
parked_heap-cases (suc zero) v =
    inl (refl, cc (v.holds, write-other heap 2 (some parked) 1 (λ e. ground arith)))
parked_heap-cases (suc (suc zero)) v = inr (refl, cc (v.holds, write-same heap 2 (some parked)))
parked_heap-cases (suc (suc (suc p))) v =
    let e : none ≡ some v.here =
      sym (write-other heap 2 (some parked) (suc (suc (suc p))) (λ e. ground arith)) ∙ v.holds in
    absurd (ground arith)

state-idle : (p : Ptr) → Parked parked_heap p → Nowhere p contents × Nowhere p (cleared contents)
state-idle p w = elim (parked_heap-cases p w.live) [
  | inl (_, e) ↦ absurd (ground (arith, w.unsettled, ap (λ t. is_settled t.status) e))
  | inr (e, _) ↦ rw e ((refl, (refl, tt)), (refl, (refl, tt)))
]

state-homed : (p : Ptr) (v : Live parked_heap p) → v.here.worker_id < 2
state-homed p v = elim (parked_heap-cases p v) [
  | inl (_, e) ↦ omega (arith, ap (λ t. t.worker_id) e)
  | inr (_, e) ↦ omega (arith, ap (λ t. t.worker_id) e)
]

state-wakers : (p : Ptr) (e : Inner) → inners p ≡ some e → Live parked_heap e.waker
state-wakers p e at = let two : 2 ≡ e.waker = ground arith in rw (← two) live_parked

state-Good : Good state
state-Good = record {
  lists = lists;
  queued = contents;
  collected = cleared contents;
  batched = refl;
  split =
      cleared-Split parked_rt contents contents lists parked_rt-View
        ((refl, refl), ((refl, refl), tt)) refl;
  sized = refl;
  idle = state-idle;
  homed = state-homed;
  wakers = state-wakers;
}

event-Wired : Wired slab inners event
event-Wired = record {
  here = slot 7 null;
  holds = refl;
  readable = λ ne. (inner, refl);
  writable = λ ne. absurd (ne refl);
}

round-Served_example : Served mt_runtime slab (5 ∷ []) (event ∷ []) state state-Good
round-Served_example =
    round-Served mt_runtime slab (5 ∷ []) (event ∷ []) state state-Good (event-Wired, tt)
      ((slot null null, refl), refl, tt)

dispatch_all-held_example :
    (t : LoopState) × (g' : Good t) × (dispatch_all mt_runtime slab 0 (event ∷ []) state ≡ some t)
    × Next state-Good g'
    × (held g' ≤ 256)
unfolding state-Good total
dispatch_all-held_example =
    dispatch_all-held mt_runtime slab (event ∷ []) state state-Good (event-Wired, tt) refl

-- Before the first turn, the event and the key have come; later, the other threads rest.
abbrev others : Others
others zero slab' s = record { slab = slab; state = state; events = event ∷ []; deferred = 5 ∷ [] }
others (suc n) slab' s = record { slab = slab'; state = s; events = []; deferred = [] }

-- The third read of SHUTDOWN finds it set.
abbrev set_by : ℕ → Bool
set_by n = n == 2

others-Orderly : Orderly others
unfolding state-Good total
others-Orderly zero slab' s g e = record {
  good = state-Good;
  clear = refl;
  wired = (event-Wired, tt);
  removable = ((slot null null, refl), refl, tt);
}
others-Orderly (suc n) slab' s g e = record { good = g; clear = e; wired = tt; removable = tt }

abbrev outside_state : LoopState
outside_state = record state { local = nothing }

reactor-Ended_example : Ended mt_runtime set_by others 3 2 slab outside_state contents
reactor-Ended_example =
    reactor-Ended mt_runtime set_by others 3 2 slab outside_state contents others-Orderly refl
      (omega arith) refl parked_rt-View (λ p w. (state-idle p w).0) state-homed state-wakers
