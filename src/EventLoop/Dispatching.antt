-- ===== src/EventLoop/Dispatching.antt =====
-- The handling of one event as steps of the event loop.
use yaay_rs.Base.{
  bind, ◌==◌, not, ◌&&◌, ◌≡◌, ◌≢◌, inl, inr, refl, Bool, true, false, Bool-cases, some, arith,
}
use yaay_rs.Task.Heap.{Ptr, null}
use yaay_rs.Registry.{Slab, Slot}
use yaay_rs.EventLoop.{Inner, Inners, Event, LoopState, swapped, notify, notify_if, dispatch}
use yaay_rs.EventLoop.Facts.{Good, Next, Next-refl, Told, Told-between}
use yaay_rs.EventLoop.Delivery.{Step}
use yaay_rs.EventLoop.Steps.{stay-Step, then-Step, as-Step, notify-Step}

-- A pointer of a slot leads to a dispatcher.
abbrev pub Points : Inners → Ptr → Type 0
Points f p = p ≢ null → (e : Inner) × (f p ≡ some e)

pub Next-Points :
    {s t : LoopState} {g : Good s} {g' : Good t} (p : Ptr)
    → Next g g'
    → Points s.inners p
    → Points t.inners p
Next-Points p next points ne =
    let (e, at) = points ne in
    elim (next.inners p e at) [ inl at' ↦ (e, at') | inr n ↦ (swapped e, n.0) ]

notify_if-skip :
    (ready : Bool) (p : Ptr) (s : LoopState)
    → (ready && not (p == null)) ≡ false
    → notify_if ready p s ≡ some s
unfolding notify_if
notify_if-skip ready p s e = rw e refl

notify_if-run :
    (ready : Bool) (p : Ptr) (s : LoopState)
    → (ready && not (p == null)) ≡ true
    → notify_if ready p s ≡ notify p s
unfolding notify_if
notify_if-run ready p s e = rw e refl

-- The dispatcher of a slot is notified if the event is for it.
abbrev pub ToldIf : {t : LoopState} → Bool → Ptr → LoopState → Good t → Type 0
ToldIf ready p s g' = ready ≡ true → p ≢ null → Told p s g'

notify_if-Step :
    (ready : Bool) (p : Ptr) (s : LoopState) (g : Good s)
    → Points s.inners p
    → (step : Step 1 g (notify_if ready p s)) × ToldIf ready p s step.good
notify_if-Step ready p s g points = elim (Bool-cases (ready && not (p == null))) [
  | inl e ↦
      let (d, at) = points (λ eq. ground arith) in
      let (step, told) = notify-Step s g p d at in
      (as-Step (omega arith) (notify_if-run ready p s e) step, λ _ _. told)
  | inr e ↦ (
    as-Step (omega arith) (notify_if-skip ready p s e) (stay-Step s g),
    λ on ne. absurd (ground arith),
  )
]

-- The event's token is that of a slot whose pointers lead to dispatchers.
pub record Wired (slab : Slab) (f : Inners) (ev : Event) : Type 0 where
  pub here : Slot
  pub holds : slab ev.token ≡ some here
  pub readable : Points f here.readable
  pub writable : Points f here.writable

-- Both dispatchers of the event's slot are notified, each if the event is for it.
abbrev pub Dispatched : {t : LoopState} → Slot → Event → LoopState → Good t → Type 0
Dispatched slot ev s g' =
    ToldIf ev.readable slot.readable s g' × ToldIf ev.writable slot.writable s g'

module _ (slab : Slab) (ev : Event) (s : LoopState) (g : Good s) where
  dispatch-run :
      (slot : Slot)
      → slab ev.token ≡ some slot
      → dispatch slab ev s
        ≡ bind (notify_if ev.readable slot.readable s) (notify_if ev.writable slot.writable)
  unfolding dispatch
  dispatch-run slot at = rw (dispatch, at) refl

  pub dispatch-Step :
      (w : Wired slab s.inners ev)
      → (step : Step 2 g (dispatch slab ev s)) × Dispatched w.here ev s step.good
  dispatch-Step w =
      let (step, told) = notify_if-Step ev.readable w.here.readable s g w.readable in
      let (step', told') =
        notify_if-Step ev.writable w.here.writable step.after step.good
          (Next-Points w.here.writable step.next w.writable) in
      let both = then-Step (notify_if ev.writable w.here.writable) step step' in
      (
        as-Step (omega arith) (dispatch-run w.here w.holds) both,
        (
          λ on ne. Told-between w.here.readable (Next-refl g) step.next (told on ne) step'.next,
          λ on ne.
              Told-between w.here.writable step.next step'.next (told' on ne) (Next-refl both.good),
        ),
      )
