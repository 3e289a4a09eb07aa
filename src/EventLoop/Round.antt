-- ===== src/EventLoop/Round.antt =====
-- The loop over the events, the last `push_batch` and the removal of keys.
use yaay_rs.Base.{
  bind, ℕ, ◌+◌, ◌*◌, ◌≤◌, total, length, Bool-cases, ◌%◌, ◌==◌, ◌≡◌, ◌≢◌, inl, inr, ◌∙◌, refl, ap,
  Bool, true, false, List, [], ◌∷◌, some, arith, if◌then◌else◌,
}
use yaay_rs.Task.Heap.{Ptr}
use yaay_rs.Batch.Laws.{AllNull}
use yaay_rs.Registry.{Slab, Slot}
use yaay_rs.RuntimeApi.{RuntimeApi}
use yaay_rs.EventLoop.{Inners, Event, LoopState, dispatch, flush, dispatch_all, remove_all, round}
use yaay_rs.EventLoop.Facts.{
  Calls, Somewhere, Good, held, InList, Next, Next-refl, Next-trans, Told-between,
}
use yaay_rs.EventLoop.Delivery.{Step}
use yaay_rs.EventLoop.Flush.{Flushed-queued, cleared-length, flush-Step}
use yaay_rs.EventLoop.Steps.{stay-Step, then-Step, as-Step}
use yaay_rs.EventLoop.Dispatching.{Next-Points, Wired, Dispatched, dispatch-Step}
use yaay_rs.EventLoop.Removal.{Removable, Removed, remove_all-Removed}

abbrev pub AllWired : Slab → Inners → List Event → Type 0
AllWired slab f [] = Unit
AllWired slab f (ev ∷ events) = Wired slab f ev × AllWired slab f events

-- What `Dispatched` says, of every event.
abbrev pub AllDispatched : {t : LoopState} → Slab → List Event → LoopState → Good t → Type 0
AllDispatched slab [] s g' = Unit
AllDispatched slab (ev ∷ events) s g' =
    ((slot : Slot) → slab ev.token ≡ some slot → Dispatched slot ev s g')
    × AllDispatched slab events s g'

Next-AllWired :
    {s t : LoopState} {g : Good s} {g' : Good t} (slab : Slab) (events : List Event)
    → Next g g'
    → AllWired slab s.inners events
    → AllWired slab t.inners events
Next-AllWired slab [] next wired = tt
Next-AllWired slab (ev ∷ events) next wired = (
  record {
    here = wired.0.here;
    holds = wired.0.holds;
    readable = Next-Points wired.0.here.readable next wired.0.readable;
    writable = Next-Points wired.0.here.writable next wired.0.writable;
  },
  Next-AllWired slab events next wired.1,
)

module _ {s t u w : LoopState} {g : Good s} {g1 : Good t} {g2 : Good u} {g3 : Good w} where
  Dispatched-between :
      (slot : Slot) (ev : Event)
      → Next g g1
      → Next g1 g2
      → Dispatched slot ev t g2
      → Next g2 g3
      → Dispatched slot ev s g3
  Dispatched-between slot ev a b told c = (
    λ on ne. Told-between slot.readable a b (told.0 on ne) c,
    λ on ne. Told-between slot.writable a b (told.1 on ne) c,
  )

  AllDispatched-between :
      (slab : Slab) (events : List Event)
      → Next g g1
      → Next g1 g2
      → AllDispatched slab events t g2
      → Next g2 g3
      → AllDispatched slab events s g3
  AllDispatched-between slab [] a b told c = tt
  AllDispatched-between slab (ev ∷ events) a b told c = (
    λ slot at. Dispatched-between slot ev a b (told.0 slot at) c,
    AllDispatched-between slab events a b told.1 c,
  )

-- The local lists hold few enough tasks for the index `k`.
room :
    (k a b c : ℕ)
    → a ≤ 2 * (k % 128 + 1)
    → b ≤ a + 0
    → (((k + 1) % 128 == 0) ≡ true → b ≡ 0)
    → c ≤ b + 2
    → c ≤ 2 * ((k + 1) % 128 + 1)
room k a b c le le_b at_flush le_c = elim (Bool-cases ((k + 1) % 128 == 0)) [
  | inl e ↦ omega (arith, at_flush e)
  | inr e ↦ let ne : (k + 1) % 128 ≢ 0 = λ eq. ground (arith, e, eq) in omega (arith, ne)
]

module _ (api : RuntimeApi) where
  flush_if-Step :
      (b : Bool) (s : LoopState) (g : Good s)
      → (step : Step 0 g (if b then flush api s else some s)) × (b ≡ true → held step.good ≡ 0)
  flush_if-Step true s g =
      let (step, flushed) = flush-Step api s g in
      (step, λ _. ap (total length) flushed.1 ∙ cleared-length g.collected)
  flush_if-Step false s g = (stay-Step s g, λ e. absurd (ground arith))

  -- The loop handles every event, from any index on, and its local lists never hold many tasks.
  dispatch_all-Step :
      (slab : Slab) (k : ℕ) (events : List Event) (s : LoopState) (g : Good s)
      → AllWired slab s.inners events
      → (step : Step (2 * length events) g (dispatch_all api slab k events s)) × AllDispatched slab
          events s step.good
        × (held g ≤ 2 * (k % 128 + 1) → held step.good ≤ 256)
  unfolding dispatch_all
  dispatch_all-Step slab k [] s g wired = (stay-Step s g, tt, λ le. omega (arith, le))
  dispatch_all-Step slab k (ev ∷ events) s g wired =
      let (start, at_flush) = flush_if-Step ((k + 1) % 128 == 0) s g in
      let wired1 = Next-AllWired slab (ev ∷ events) start.next wired in
      let (step, told) = dispatch-Step slab ev start.after start.good wired1.0 in
      let (more, all, bounded) =
        dispatch_all-Step slab (k + 1) events step.after step.good
          (Next-AllWired slab events step.next wired1.1) in
      let run =
        then-Step (λ s1. bind (dispatch slab ev s1) (dispatch_all api slab (k + 1) events)) start
          (then-Step (dispatch_all api slab (k + 1) events) step more) in
      (
        as-Step (omega arith) refl run,
        (
          λ slot at.
              let e : wired1.0.here ≡ slot = cc (wired1.0.holds) in
              rw (← e) (Dispatched-between wired1.0.here ev start.next step.next told more.next),
          AllDispatched-between slab events (Next-trans start.next step.next) more.next all
              (Next-refl more.good),
        ),
        λ le.
            bounded (
              room k (held g) (held start.good) (held step.good) le start.small at_flush
                step.small),
      )

  -- What a round does: the call ends, the local lists are null, the dispatchers of the events are
  -- notified, a task that is in a list is in the queue of a worker, the status word changes by calls of
  -- `next_epoch`, of which there are some if the queues change, and the keys are free again.
  pub record Served (slab : Slab) (deferred : List ℕ) (events : List Event) (s : LoopState)
      (g : Good s) : Type 0 where
    pub slab_after : Slab
    pub after : LoopState
    pub good : Good after
    pub ran : round api slab deferred events s ≡ some (slab_after, after)
    pub next : Next g good
    pub dispatched : AllDispatched slab events s good
    pub nulls : AllNull good.lists
    pub emptied : held good ≡ 0
    pub delivered : (p : Ptr) → InList p good → Somewhere p good.queued
    pub removed : Removed slab deferred slab_after
    pub called : Bool
    pub calls : Calls called s.rt.status after.rt.status
    pub announced : called ≡ false → good.queued ≡ g.queued

  round-run :
      (slab slab' : Slab) (deferred : List ℕ) (events : List Event) (s t u : LoopState)
      → dispatch_all api slab 0 events s ≡ some t
      → flush api t ≡ some u
      → remove_all deferred slab ≡ some slab'
      → round api slab deferred events s ≡ some (slab', u)
  unfolding round
  round-run slab slab' deferred events s t u ran ran' ran'' = rw (round, ran, ran', ran'') refl

  -- A round, from a state that is in order (`Good`), for events whose slots are in use and point to
  -- dispatchers, and deferred keys that are distinct and in use, ends without a fault. Every dispatcher of an event is notified, and its task is
  -- in the queue of a worker if both were parked; the local lists are null; every task that was in a
  -- queue or in a local list is in a queue; every task that was parked is still parked or in a queue, and
  -- no task is freed; unless the queues are as they were, `next_epoch` has been called; exactly the slots
  -- of the deferred keys have become vacant.
  pub round-Served :
      (slab : Slab) (deferred : List ℕ) (events : List Event) (s : LoopState) (g : Good s)
      → AllWired slab s.inners events
      → Removable slab deferred
      → Served slab deferred events s g
  round-Served slab deferred events s g wired removable =
      let (step, told, _) = dispatch_all-Step slab 0 events s g wired in
      let (last, flushed) = flush-Step api step.after step.good in
      let all_steps = then-Step (flush api) step last in
      let (slab', ran, removed) = remove_all-Removed deferred slab removable in
      record {
        slab_after = slab';
        after = last.after;
        good = last.good;
        ran = round-run slab slab' deferred events s step.after last.after step.ran last.ran ran;
        next = Next-trans step.next last.next;
        dispatched = AllDispatched-between slab events (Next-refl g) step.next told last.next;
        nulls = flushed.2;
        emptied = ap (total length) flushed.1 ∙ cleared-length step.good.collected;
        delivered = Flushed-queued step.after step.good last.good flushed;
        removed = removed;
        called = all_steps.called;
        calls = all_steps.calls;
        announced = all_steps.announced;
      }

  -- While the loop handles the events of a round, from empty local lists on, these never hold more than
  -- 256 tasks: `push_batch` is called before every 128th event.
  pub dispatch_all-held :
      (slab : Slab) (events : List Event) (s : LoopState) (g : Good s)
      → AllWired slab s.inners events
      → held g ≡ 0
      → (t : LoopState) × (g' : Good t) × (dispatch_all api slab 0 events s ≡ some t)
        × Next g g'
        × (held g' ≤ 256)
  dispatch_all-held slab events s g wired e =
      let (step, _, bounded) = dispatch_all-Step slab 0 events s g wired in
      (step.after, step.good, step.ran, step.next, bounded (omega (arith, e)))
