-- ===== src/EventLoop/Ends.antt =====
-- A reactor thread ends once SHUTDOWN is set, and every turn before is served.
use yaay_rs.Base.{
  ℕ, zero, suc, ◌+◌, ◌<◌, ◌≤◌, ◌≡◌, ◌≢◌, inl, inr, ◌∙◌, refl, sym, ap, subst, Bool, true, false,
  Bool-cases, [], ◌∷◌, some, length, total, arith,
}
use yaay_rs.Task.Heap.{Ptr}
use yaay_rs.TaskList.Chain.{Live}
use yaay_rs.Shared.View.{Contents, View, Nowhere}
use yaay_rs.Batch.Laws.{all_empty}
use yaay_rs.Wake.{nothing}
use yaay_rs.Registry.{Slab}
use yaay_rs.RuntimeApi.{RuntimeApi}
use yaay_rs.EventLoop.{Inner, LoopState, start, round, remove_all}
use yaay_rs.EventLoop.Facts.{Parked, Good, held}
use yaay_rs.EventLoop.Flush.{zip-all_empty}
use yaay_rs.EventLoop.Start.{start-Good}
use yaay_rs.EventLoop.Removal.{Removable, Removed, remove_all-Removed}
use yaay_rs.EventLoop.Round.{AllWired, Served, round-Served}
use yaay_rs.EventLoop.Thread.{Found, Others, drop_batch, event_loop, finish, reactor}

total-all_empty : (d : Contents) → total length d ≡ 0 → all_empty d ≡ true
unfolding total
total-all_empty [] e = refl
total-all_empty ([] ∷ d) e = total-all_empty d (omega (arith, e))
total-all_empty ((x ∷ xs) ∷ d) e = absurd (omega (arith, e))

-- What is found is in order: the state is good, with empty local lists, the slots of the events are in
-- use and point to dispatchers, and the deferred keys are distinct and in use.
pub record Met (found : Found) : Type 0 where
  pub good : Good found.state
  pub clear : held good ≡ 0
  pub wired : AllWired found.slab found.state.inners found.events
  pub removable : Removable found.slab found.deferred

-- The other threads, `poll` and the streams leave things in order.
abbrev pub Orderly : Others → Type 0
Orderly others =
    (n : ℕ) (slab : Slab) (s : LoopState) (g : Good s) → held g ≡ 0 → Met (others n slab s)

module _ (api : RuntimeApi) where
  drop_batch-View :
      (s : LoopState) (g : Good s)
      → held g ≡ 0
      → (t : LoopState) × (drop_batch api s ≡ some t) × (t.local ≡ nothing) × View t.rt g.queued
  unfolding drop_batch
  drop_batch-View s g e =
      let sized : length g.queued ≡ length g.lists = g.sized ∙ sym g.split.locals.sized in
      let (rt, ran, v) = api.drop_guard-View s.rt g.queued g.lists g.collected sized g.split in
      let same = zip-all_empty g.queued g.collected g.sized (total-all_empty g.collected e) in
      let ran' : api.drop_guard s.local s.rt ≡ some (nothing, rt) = rw g.batched ran in
      (
        record s { rt = rt; local = nothing },
        rw (drop_batch, ran') refl,
        refl,
        subst (View rt) same v,
      )

module _ (api : RuntimeApi) (others : Others) where
  finish-run :
      (n : ℕ) (slab slab' : Slab) (s t : LoopState)
      → remove_all (others n slab s).deferred (others n slab s).slab ≡ some slab'
      → drop_batch api (others n slab s).state ≡ some t
      → finish api others n slab s ≡ some (slab', t)
  unfolding finish
  finish-run n slab slab' s t ran ran' = rw (ran, ran') refl

module _ (api : RuntimeApi) (shutdown : ℕ → Bool) (others : Others) where
  -- The turns, each of them served, up to the first that reads SHUTDOWN as set
  pub data Turns
      : (n : ℕ) (slab : Slab) (s : LoopState)
        → Good s
        → (m : ℕ) (slab' : Slab) (s' : LoopState) → Type 0 where
    stop :
        {n : ℕ} {slab : Slab} {s : LoopState} {g : Good s}
        → shutdown n ≡ true
        → Turns n slab s g n slab s
    turn :
        {n : ℕ} {slab : Slab} {s : LoopState} {g : Good s} {m : ℕ} {slab' : Slab} {s' : LoopState}
        → shutdown n ≡ false
        → (met : Met (others n slab s))
        → (served : Served api
            (others n slab s).slab
            (others n slab s).deferred
            (others n slab s).events
            (others n slab s).state
            met.good)
        → Turns (suc n) served.slab_after served.after served.good m slab' s'
        → Turns n slab s g m slab' s'

  record Looped (fuel n bound : ℕ) (slab : Slab) (s : LoopState) (g : Good s) : Type 0 where
    last : ℕ
    slab_after : Slab
    after : LoopState
    good : Good after
    clear : held good ≡ 0
    ran : event_loop api shutdown others fuel n slab s ≡ some (last, slab_after, after)
    turns : Turns n slab s g last slab_after after
    soon : last ≤ bound

  event_loop-stop :
      (fuel n : ℕ) (slab : Slab) (s : LoopState)
      → shutdown n ≡ true
      → event_loop api shutdown others (suc fuel) n slab s ≡ some (n, slab, s)
  unfolding event_loop
  event_loop-stop fuel n slab s e = rw e refl

  event_loop-turn :
      (fuel n : ℕ) (slab slab' : Slab) (s s' : LoopState)
      → shutdown n ≡ false
      → round api
          (others n slab s).slab
          (others n slab s).deferred
          (others n slab s).events
          (others n slab s).state
        ≡ some (slab', s')
      → event_loop api shutdown others (suc fuel) n slab s
        ≡ event_loop api shutdown others fuel (suc n) slab' s'
  unfolding event_loop
  event_loop-turn fuel n slab slab' s s' e ran = rw (e, ran) refl

  event_loop-Looped :
      (fuel n bound : ℕ) (slab : Slab) (s : LoopState) (g : Good s)
      → Orderly others
      → held g ≡ 0
      → shutdown bound ≡ true
      → n ≤ bound
      → bound < n + fuel
      → Looped fuel n bound slab s g
  event_loop-Looped zero n bound slab s g orderly e set le lt = absurd (omega (arith, le, lt))
  event_loop-Looped (suc fuel) n bound slab s g orderly e set le lt =
      elim (Bool-cases (shutdown n)) [
        | inl now ↦ record {
          last = n;
          slab_after = slab;
          after = s;
          good = g;
          clear = e;
          ran = event_loop-stop fuel n slab s now;
          turns = stop now;
          soon = le;
        }
        | inr off ↦
            let met = orderly n slab s g e in
            let found : Found = others n slab s in
            let served =
              round-Served api found.slab found.deferred found.events found.state met.good met.wired
                met.removable in
            let later : n ≢ bound = λ eq. ground (arith, set, off, ap shutdown eq) in
            let rest =
              event_loop-Looped fuel (suc n) bound served.slab_after served.after served.good
                orderly served.emptied set (omega (arith, later)) (omega (arith, lt)) in
            record {
              last = rest.last;
              slab_after = rest.slab_after;
              after = rest.after;
              good = rest.good;
              clear = rest.clear;
              ran =
                  event_loop-turn fuel n slab served.slab_after s served.after off served.ran
                  ∙ rest.ran;
              turns = turn off met served rest.turns;
              soon = rest.soon;
            }
      ]

  -- The thread has ended: its loop has served each turn before the read of SHUTDOWN as set, the keys
  -- that were left are free, and its guard is dropped, with nothing left in local lists.
  pub record Ended (fuel bound : ℕ) (slab : Slab) (s : LoopState) (c : Contents) : Type 0 where
    pub begun : LoopState
    pub as_before : begun.rt ≡ s.rt
    pub good : Good begun
    pub as_queued : good.queued ≡ c
    pub last : ℕ
    pub soon : last ≤ bound
    pub slab_last : Slab
    pub state_last : LoopState
    pub turns : Turns 0 slab begun good last slab_last state_last
    pub met : Met (others last slab_last state_last)
    pub slab_after : Slab
    pub after : LoopState
    pub ran : reactor api shutdown others fuel slab s ≡ some (slab_after, after)
    pub removed :
        Removed
          (others last slab_last state_last).slab
          (others last slab_last state_last).deferred
          slab_after
    pub outside : after.local ≡ nothing
    pub view : View after.rt met.good.queued

  reactor-run :
      (fuel n : ℕ) (slab slab2 slab3 : Slab) (s s1 s2 s3 : LoopState)
      → start api s ≡ some s1
      → event_loop api shutdown others fuel 0 slab s1 ≡ some (n, slab2, s2)
      → finish api others n slab2 s2 ≡ some (slab3, s3)
      → reactor api shutdown others fuel slab s ≡ some (slab3, s3)
  unfolding reactor
  reactor-run fuel n slab slab2 slab3 s s1 s2 s3 ran ran' ran'' = rw (ran, ran', ran'') refl

  -- A reactor thread that begins outside of batch mode, on queues whose lists are intact, where a parked
  -- task is in no queue, every task is for one of the workers and every dispatcher has the waker of a
  -- task that lives, ends without a fault if SHUTDOWN is read as set by the turn `bound` at the latest,
  -- while the other threads, `poll` and the streams leave things in order for each turn. Every turn
  -- before the first such read is served as a round is; then the keys that are left are free, and the
  -- thread is outside of batch mode, with the queues intact and nothing left in its local lists. The
  -- fuel need only be larger than `bound`.
  pub reactor-Ended :
      (fuel bound : ℕ) (slab : Slab) (s : LoopState) (c : Contents)
      → Orderly others
      → shutdown bound ≡ true
      → bound < fuel
      → s.local ≡ nothing
      → View s.rt c
      → ((p : Ptr) → Parked s.rt.heap p → Nowhere p c)
      → ((p : Ptr) (v : Live s.rt.heap p) → v.here.worker_id < length c)
      → ((p : Ptr) (e : Inner) → s.inners p ≡ some e → Live s.rt.heap e.waker)
      → Ended fuel bound slab s c
  reactor-Ended fuel bound slab s c orderly set lt outside v idle homed wakers =
      let (s1, g, ran, same, _, queued, e) = start-Good api s c outside v idle homed wakers in
      let loop =
        event_loop-Looped fuel 0 bound slab s1 g orderly e set (omega arith) (omega (arith, lt)) in
      let met = orderly loop.last loop.slab_after loop.after loop.good loop.clear in
      let found : Found = others loop.last loop.slab_after loop.after in
      let (slab', ran', removed) = remove_all-Removed found.deferred found.slab met.removable in
      let (t, ran'', out, view) = drop_batch-View api found.state met.good met.clear in
      record {
        begun = s1;
        as_before = same;
        good = g;
        as_queued = queued;
        last = loop.last;
        soon = loop.soon;
        slab_last = loop.slab_after;
        state_last = loop.after;
        turns = loop.turns;
        met = met;
        slab_after = slab';
        after = t;
        ran =
            reactor-run fuel loop.last slab loop.slab_after slab' s s1 loop.after t ran loop.ran
              (finish-run api others loop.last loop.slab_after slab' loop.after t ran' ran'');
        removed = removed;
        outside = out;
        view = view;
      }
