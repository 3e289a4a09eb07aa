-- ===== src/EventLoop/Start.antt =====
-- The state in which a reactor thread begins its loop.
use yaay_rs.Base.{ℕ, zero, suc, ◌<◌, ◌≡◌, refl, sym, some, length, total, arith}
use yaay_rs.Task.Heap.{Ptr}
use yaay_rs.TaskList.Chain.{Live}
use yaay_rs.Shared.View.{Contents, View, Nowhere}
use yaay_rs.Wake.{nothing, batch}
use yaay_rs.Wake.Guard.{nils, length-nils, Nowhere-nils}
use yaay_rs.RuntimeApi.{RuntimeApi}
use yaay_rs.EventLoop.{Inner, LoopState, start}
use yaay_rs.EventLoop.Facts.{Parked, Good, held}

nils-length : (n : ℕ) → total length (nils n) ≡ 0
unfolding total
nils-length zero = refl
nils-length (suc n) = omega (arith, nils-length n)

-- From a state outside of batch mode, in which a parked task is in no queue, every task is for one of
-- the workers and every dispatcher has the waker of a task, the batch guard leads to one in which the
-- event loop can run, with empty local lists.
pub start-Good :
    (api : RuntimeApi) (s : LoopState) (c : Contents)
    → s.local ≡ nothing
    → View s.rt c
    → ((p : Ptr) → Parked s.rt.heap p → Nowhere p c)
    → ((p : Ptr) (v : Live s.rt.heap p) → v.here.worker_id < length c)
    → ((p : Ptr) (e : Inner) → s.inners p ≡ some e → Live s.rt.heap e.waker)
    → (t : LoopState) × (g : Good t) × (start api s ≡ some t)
      × (t.rt ≡ s.rt)
      × (t.inners ≡ s.inners)
      × (g.queued ≡ c)
      × (held g ≡ 0)
unfolding start
start-Good api s c outside v idle homed wakers =
    let (lists, ran, split) = api.batch_guard-Split s.rt c v in
    let e : api.batch_guard s.local s.rt ≡ some (batch lists, s.rt) = rw outside ran in
    (
      record s { local = batch lists },
      record {
        lists = lists;
        queued = c;
        collected = nils (length c);
        batched = refl;
        split = split;
        sized = sym (length-nils (length c));
        idle = λ p w. (idle p w, Nowhere-nils p (length c));
        homed = homed;
        wakers = wakers;
      },
      rw (start, e) refl,
      refl,
      refl,
      refl,
      nils-length (length c),
    )
