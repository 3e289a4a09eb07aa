-- ===== src/EventLoop.antt =====
-- One round of a reactor thread's event loop (yaay-mio/src/shared.rs), from the return of `poll` to the
-- end of `'outer`, as one computation: `DispatcherInner::notify` (yaay-mio/src/dispatcher.rs) on the
-- slots of Registry, the wakes of Wake within the batch of the thread, and `push_batch` of the runtime, which is
-- an argument.
pub mod Facts
mod Grown
pub mod Delivery
pub mod Flush
pub mod Start
pub mod Steps
pub mod Dispatching
pub mod Removal
pub mod Round
pub mod Thread
pub mod Ends
pub mod Examples
use yaay_rs.Base.{
  bind, ℕ, ◌+◌, ◌%◌, Bool, true, false, not, ◌&&◌, ◌==◌, if◌then◌else◌, List, [], ◌∷◌, Option, none,
  some,
}
use yaay_rs.Task.Heap.{Ptr, null}
use yaay_rs.Shared.State.{Runtime}
use yaay_rs.RuntimeApi.{RuntimeApi}
use yaay_rs.Wake.{Local, wake}
use yaay_rs.Dispatcher.{Bits, bits, is_parked}
use yaay_rs.Registry.{Slab, Slot, remove}

-- `DispatcherInner`; the waker is that of a task (task_waker.rs).
pub record Inner : Type 0 where
  pub status : Bits
  pub waker : Ptr

-- An event of `poll_events`: `token().0`, and `is_readable` and `is_writable` of its readiness.
pub record Event : Type 0 where
  pub token : ℕ
  pub readable : Bool
  pub writable : Bool

-- The dispatchers by their addresses
abbrev pub Inners : Type 0
Inners = Ptr → Option Inner

abbrev pub store_inner : Inners → Ptr → Inner → Inners
store_inner f p e q = if q == p then some e else f q

-- What the reactor thread writes while it has the lock of `dispatchers`, and then in `push_batch`.
pub record LoopState : Type 0 where
  pub rt : Runtime
  pub local : Local
  pub inners : Inners

abbrev pub Act : Type 0
Act = LoopState → Option LoopState

-- `waker.wake_by_ref()`
unfoldable pub wake_by_ref : Ptr → Act
wake_by_ref task s = elim (wake s.local task s.rt) [
  | none ↦ none
  | some (local, rt) ↦ some (record s { rt = rt; local = local })
]

-- The dispatcher after `status.swap(NOTIFIED | MUTED)`
abbrev pub swapped : Inner → Inner
swapped e = record e { status = bits true true }

-- `DispatcherInner::notify`
unfoldable pub notify : Ptr → Act
notify p s = elim (s.inners p) [
  | none ↦ none
  | some e ↦
      let s' : LoopState = record s { inners = store_inner s.inners p (swapped e) } in
      if is_parked e.status then wake_by_ref e.waker s' else some s'
]

-- The test of the readiness and of the pointer in the slot, and the call of `notify`
unfoldable pub notify_if : Bool → Ptr → Act
notify_if ready p s = if ready && not (p == null) then notify p s else some s

-- The handling of one event
unfoldable pub dispatch : Slab → Event → Act
dispatch slab ev s = elim (slab ev.token) [
  | none ↦ none
  | some slot ↦ bind (notify_if ev.readable slot.readable s) (notify_if ev.writable slot.writable)
]

-- `'outer`: the keys of `deferred_remove`, the last one first
unfoldable pub remove_all : List ℕ → Slab → Option Slab
remove_all [] slab = some slab
remove_all (k ∷ deferred) slab = bind (remove k slab) (remove_all deferred)

-- The runtime, `RT: RuntimeAPI`
module _ (api : RuntimeApi) where
  -- `RT::batch_guard()`
  unfoldable pub start : Act
  start s = elim (api.batch_guard s.local s.rt) [
    | none ↦ none
    | some (local, rt) ↦ some (record s { rt = rt; local = local })
  ]

  -- `RT::push_batch(&batch)`
  unfoldable pub flush : Act
  flush s = elim (api.push_batch s.local s.rt) [
    | none ↦ none
    | some (local, rt) ↦ some (record s { rt = rt; local = local })
  ]

  -- The loop over the events, from the index `k` on
  unfoldable pub dispatch_all : Slab → ℕ → List Event → Act
  dispatch_all slab k [] s = some s
  dispatch_all slab k (ev ∷ events) s =
      bind (if (k + 1) % 128 == 0 then flush s else some s)
        λ s1. bind (dispatch slab ev s1) (dispatch_all slab (k + 1) events)

  -- One round, for the events that `poll` has returned
  unfoldable pub round : Slab → List ℕ → List Event → LoopState → Option (Slab × LoopState)
  round slab deferred events s =
      bind (dispatch_all slab 0 events s)
        λ s1. bind (flush s1) λ s2. bind (remove_all deferred slab) λ slab'. some (slab', s2)
