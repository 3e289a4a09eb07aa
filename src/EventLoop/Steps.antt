-- ===== src/EventLoop/Steps.antt =====
-- Calls one after the other, and `notify`, as steps of the event loop.
use yaay_rs.Base.{
  bind, ◌≤◌, ◌||◌, ℕ, ◌+◌, ◌≡◌, ◌≢◌, inl, inr, ◌∙◌, refl, sym, ap, Bool, true, false, Bool-cases,
  Option, some, arith, ℕ_discrete,
}
use yaay_rs.Task.Heap.{Ptr}
use yaay_rs.Dispatcher.{is_parked}
use yaay_rs.EventLoop.{Inner, Inners, LoopState, store_inner, swapped, wake_by_ref, notify}
use yaay_rs.EventLoop.Facts.{
  no_call, Calls-trans, Parked, Good, InList, Next, Next-refl, Next-trans, Told,
}
use yaay_rs.EventLoop.Delivery.{Step, wake-Step}

store_inner-same : (f : Inners) (p : Ptr) (e : Inner) → store_inner f p e p ≡ some e
store_inner-same f p e = ground arith

store_inner-other : (f : Inners) (p q : Ptr) (e : Inner) → q ≢ p → store_inner f p e q ≡ f q
store_inner-other f p q e ne = ground arith

-- Nothing happens.
abbrev pub stay-Step : (s : LoopState) (g : Good s) → Step 0 g (some s)
stay-Step s g = record {
  after = s;
  good = g;
  ran = refl;
  next = Next-refl g;
  small = omega arith;
  called = false;
  calls = no_call;
  announced = λ _. refl;
}

pub or_left : (a b : Bool) → (a || b) ≡ false → a ≡ false
or_left a b e = ground arith

pub or_right : (a b : Bool) → (a || b) ≡ false → b ≡ false
or_right a b e = ground arith

-- The same of an equal call, with a larger bound.
abbrev pub as-Step :
    {n m : ℕ} {s : LoopState} {g : Good s} {r r' : Option LoopState}
    → n ≤ m
    → r' ≡ r
    → Step n g r
    → Step m g r'
as-Step le e step = record {
  after = step.after;
  good = step.good;
  ran = e ∙ step.ran;
  next = step.next;
  small = omega (arith, le, step.small);
  called = step.called;
  calls = step.calls;
  announced = step.announced;
}

-- One call after the other
abbrev pub then-Step :
    {n m : ℕ} {s : LoopState} {g : Good s} {r : Option LoopState} (k : LoopState → Option LoopState)
    (step : Step n g r)
    → Step m step.good (k step.after)
    → Step (n + m) g (bind r k)
then-Step k step step' = record {
  after = step'.after;
  good = step'.good;
  ran = rw step.ran step'.ran;
  next = Next-trans step.next step'.next;
  small = omega (arith, step.small, step'.small);
  called = step'.called || step.called;
  calls = Calls-trans step.calls step'.calls;
  announced = λ e.
      step'.announced (or_left step'.called step.called e)
      ∙ step.announced (or_right step'.called step.called e);
}

module _ (s : LoopState) (g : Good s) (p : Ptr) (e : Inner) (at : s.inners p ≡ some e) where
  abbrev swapped_state : LoopState
  swapped_state = record s { inners = store_inner s.inners p (swapped e) }

  swapped-Good : Good swapped_state
  swapped-Good = record {
    lists = g.lists;
    queued = g.queued;
    collected = g.collected;
    batched = g.batched;
    split = g.split;
    sized = g.sized;
    idle = g.idle;
    homed = g.homed;
    wakers = λ q e' at'. elim (ℕ_discrete q p) [
      | yes eq ↦
          let same : swapped e ≡ e' = cc (store_inner-same s.inners p (swapped e)) in
          rw (← same) (g.wakers p e at)
      | no ne ↦ g.wakers q e' (sym (store_inner-other s.inners p q (swapped e) ne) ∙ at')
    ];
  }

  -- What follows the swap follows the state before, if it wakes the task.
  swap-Next :
      {t : LoopState} (g' : Good t)
      → Next swapped-Good g'
      → (is_parked e.status ≡ true → Parked s.rt.heap e.waker → InList e.waker g')
      → Next g g' × Told p s g'
  unfolding swapped-Good
  swap-Next {t} g' next woken =
      let now : t.inners p ≡ some (swapped e) =
        elim (next.inners p (swapped e) (store_inner-same s.inners p (swapped e))) [
          | inl a ↦ a
          | inr n ↦ n.0
        ] in
      let told : Told p s g' =
        λ e' at'. let same : e ≡ e' = cc (at, at') in rw (← same) (now, woken) in
      (
        record {
          lives = next.lives;
          parks = next.parks;
          stays = next.stays;
          inners = λ q e' at'. elim (ℕ_discrete q p) [
            | yes eq ↦
                let at_p : s.inners p ≡ some e' = ap s.inners (sym eq) ∙ at' in
                rw eq (inr (told e' at_p))
            | no ne ↦ next.inners q e' (store_inner-other s.inners p q (swapped e) ne ∙ at')
          ];
        },
        told,
      )

  notify-swap : is_parked e.status ≡ false → notify p s ≡ some swapped_state
  unfolding notify
  notify-swap off = rw (notify, at, off) refl

  notify-wake : is_parked e.status ≡ true → notify p s ≡ wake_by_ref e.waker swapped_state
  unfolding notify
  notify-wake on = rw (notify, at, on) refl

  pub notify-Step : (step : Step 1 g (notify p s)) × Told p s step.good
  unfolding swapped-Good
  notify-Step = elim (Bool-cases (is_parked e.status)) [
    | inl on ↦
        let (step, found) = wake-Step swapped_state swapped-Good e.waker (g.wakers p e at) in
        let (next, told) = swap-Next step.good step.next (λ _ w. found w) in
        (
          record {
            after = step.after;
            good = step.good;
            ran = notify-wake on ∙ step.ran;
            next = next;
            small = step.small;
            called = step.called;
            calls = step.calls;
            announced = step.announced;
          },
          told,
        )
    | inr off ↦
        let (next, told) =
          swap-Next swapped-Good (Next-refl swapped-Good) (λ on. absurd (ground arith)) in
        (
          record {
            after = swapped_state;
            good = swapped-Good;
            ran = notify-swap off;
            next = next;
            small = omega arith;
            called = false;
            calls = no_call;
            announced = λ _. refl;
          },
          told,
        )
  ]
