-- ===== src/EventLoop/Delivery.antt =====
-- A wake within the batch: the task is put in a local list, and everything else is as it was.
use yaay_rs.Base.{
  ℕ, ◌+◌, ◌≡◌, ◌≢◌, inl, inr, ◌∙◌, refl, sym, ap, Bool, true, false, List, Option, some, ◌≤◌, arith,
  ℕ_discrete, get_elem?-of_lt,
}
use yaay_rs.Task.Status.{Status}
use yaay_rs.Task.Heap.{Ptr, Heap}
use yaay_rs.Task.Protocol.{is_settled}
use yaay_rs.TaskList.Defs.{TaskList}
use yaay_rs.TaskList.Chain.{Live, write-other}
use yaay_rs.TaskList.Alike.{Alike, Alike-Live}
use yaay_rs.Shared.State.{Runtime}
use yaay_rs.Shared.View.{Contents}
use yaay_rs.Batch.Split.{Split}
use yaay_rs.Wake.{batch, wake}
use yaay_rs.Wake.Marked.{notified, marked, marked-Live, write-same}
use yaay_rs.Wake.Batched.{batched_wake}
use yaay_rs.EventLoop.{LoopState, wake_by_ref}
use yaay_rs.EventLoop.Facts.{
  Calls, no_call, Parked, Somewhere, Good, held, InList, Next, here_unique,
}
use yaay_rs.EventLoop.Grown.{Grown, set-Grown}

-- The tasks of two heaps, which differ in the status of one task, that is settled afterwards.
record Tracks (task : Ptr) (h g : Heap) : Type 0 where
  forward : (p : Ptr) (v : Live h p) → (w : Live g p) × (p ≢ task → w.here.status ≡ v.here.status)
  back :
      (p : Ptr) (w : Live g p)
      → (v : Live h p) × (w.here.worker_id ≡ v.here.worker_id)
        × (is_settled w.here.status ≡ false → (p ≢ task) × (v.here.status ≡ w.here.status))

notified-settled : (s : Status) → is_settled (notified s) ≡ true
notified-settled s = ground arith

marked-back :
    (h : Heap) (task : Ptr) (v : Live h task) (p : Ptr) (w : Live (marked h task v.here) p)
    → (u : Live h p) × (w.here.worker_id ≡ u.here.worker_id)
      × (is_settled w.here.status ≡ false → (p ≢ task) × (u.here.status ≡ w.here.status))
marked-back h task v p w = elim (ℕ_discrete p task) [
  | yes e ↦
      let eq : w.here ≡ record (v.here) { status = notified v.here.status } =
        cc (
          w.holds,
          write-same h task (some (record (v.here) { status = notified v.here.status })),
        ) in
      (
        record { ne_null = w.ne_null; here = v.here; holds = ap h e ∙ v.holds },
        ap (λ t. t.worker_id) eq,
        λ off.
            absurd (
              ground
                (arith, off, ap (λ t. is_settled t.status) eq, notified-settled v.here.status)),
      )
  | no ne ↦ (
    record {
      ne_null = w.ne_null;
      here = w.here;
      holds = sym (write-other h task _ p ne) ∙ w.holds;
    },
    refl,
    λ off. (ne, refl),
  )
]

marked-forward :
    (h : Heap) (task : Ptr) (v : Live h task) (p : Ptr) (w : Live h p)
    → (u : Live (marked h task v.here) p) × (p ≢ task → u.here.status ≡ w.here.status)
marked-forward h task v p w = elim (ℕ_discrete p task) [
  | yes e ↦ rw e (marked-Live h task v, λ ne. absurd (ne refl))
  | no ne ↦ (
    record { ne_null = w.ne_null; here = w.here; holds = write-other h task _ p ne ∙ w.holds },
    λ _. refl,
  )
]

marked-Tracks :
    (h g : Heap) (task : Ptr) (v : Live h task) → Alike (marked h task v.here) g → Tracks task h g
marked-Tracks h g task v alike = record {
  forward = λ p w.
      let (u, same) = marked-forward h task v p w in
      let (x, e, _) = Alike-Live alike u in (x, λ ne. e ∙ same ne);
  back = λ p w.
      let (u, e, e_id) = Alike-Live (λ a. sym (alike a)) w in
      let (x, id, off) = marked-back h task v p u in
      (x, sym e_id ∙ id, λ un. let (ne, same) = off (ap is_settled e ∙ un) in (ne, same ∙ e));
}

-- The state after the call is good again and follows the state before, with at most `n` more tasks in
-- the local lists; the queues are as they were unless `next_epoch` has been called.
pub record Step (n : ℕ) {s : LoopState} (g : Good s) (r : Option LoopState) : Type 0 where
  pub after : LoopState
  pub good : Good after
  pub ran : r ≡ some after
  pub next : Next g good
  pub small : held good ≤ held g + n
  pub called : Bool
  pub calls : Calls called s.rt.status after.rt.status
  pub announced : called ≡ false → good.queued ≡ g.queued

module _ (s : LoopState) (g : Good s) (task : Ptr) (v : Live s.rt.heap task) where
  woken-Good :
      (lists : List TaskList) (rt : Runtime) (d : Contents)
      → Split rt.heap rt.queues g.queued lists d
      → Tracks task s.rt.heap rt.heap
      → Grown task (is_settled v.here.status) g.collected d
      → Good (record s { rt = rt; local = batch lists })
  woken-Good lists rt d split tracks grown = record {
    lists = lists;
    queued = g.queued;
    collected = d;
    batched = refl;
    split = split;
    sized = g.sized ∙ sym grown.sized;
    idle = λ p w.
        let (u, _, off) = tracks.back p w.live in
        let (ne, e) = off w.unsettled in
        let out = g.idle p (record { live = u; unsettled = ap is_settled e ∙ w.unsettled }) in
        (out.0, grown.apart p ne out.1);
    homed = λ p w. let (u, id, _) = tracks.back p w in omega (arith, id, g.homed p u);
    wakers = λ p e at. (tracks.forward e.waker (g.wakers p e at)).0;
  }

  wake_by_ref-run :
      (lists : List TaskList) (rt : Runtime)
      → wake (batch g.lists) task s.rt ≡ some (batch lists, rt)
      → wake_by_ref task s ≡ some (record s { rt = rt; local = batch lists })
  unfolding wake_by_ref
  wake_by_ref-run lists rt ran =
      let e : wake s.local task s.rt ≡ some (batch lists, rt) = rw g.batched ran in
      rw (wake_by_ref, e) refl

  woken-Step :
      (lists : List TaskList) (rt : Runtime) (d : Contents)
      → wake (batch g.lists) task s.rt ≡ some (batch lists, rt)
      → Split rt.heap rt.queues g.queued lists d
      → Tracks task s.rt.heap rt.heap
      → Grown task (is_settled v.here.status) g.collected d
      → rt.status ≡ s.rt.status
      → (step : Step 1 g (wake_by_ref task s)) × (Parked s.rt.heap task → InList task step.good)
  unfolding woken-Good
  woken-Step lists rt d ran split tracks grown quiet =
      let found : Parked s.rt.heap task → Somewhere task d =
        λ w. grown.found (ap (λ t. is_settled t.status) (here_unique v w.live) ∙ w.unsettled) in
      (
        record {
          after = record s { rt = rt; local = batch lists };
          good = woken-Good lists rt d split tracks grown;
          ran = wake_by_ref-run lists rt ran;
          next = record {
            lives = λ p w. (tracks.forward p w).0;
            parks = λ p w. elim (ℕ_discrete p task) [
              | yes e ↦ rw e (inr (inr (found (rw (← e) w))))
              | no ne ↦
                  let (u, same) = tracks.forward p w.live in
                  inl (record { live = u; unsettled = ap is_settled (same ne) ∙ w.unsettled })
            ];
            stays = λ p there. elim there [ inl q ↦ inl q | inr q ↦ inr (grown.kept p q) ];
            inners = λ p e at_p. inl at_p;
          };
          small = grown.small;
          called = false;
          calls = rw quiet no_call;
          announced = λ _. refl;
        },
        λ w. inr (found w),
      )

  -- A wake of a task that lives, which is in a list afterwards if it was parked.
  pub wake-Step :
      (step : Step 1 g (wake_by_ref task s)) × (Parked s.rt.heap task → InList task step.good)
  wake-Step =
      let i : ℕ = v.here.worker_id in
      let (xs, at) = get_elem?-of_lt g.collected i (omega (arith, g.sized, g.homed task v)) in
      let (lists, rt, ran, split, alike, quiet) =
        batched_wake s.rt g.queued g.collected g.lists xs task v g.split
          (λ off. g.idle task (record { live = v; unsettled = off })) at in
      woken-Step lists rt _ ran split (marked-Tracks s.rt.heap rt.heap task v alike)
        (set-Grown task (is_settled v.here.status) g.collected i xs at) quiet
