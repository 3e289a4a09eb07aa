-- ===== src/EventLoop/Flush.antt =====
-- `push_batch` as a step of the event loop: the collected tasks are in the queues of their workers.
use yaay_rs.Epoch.Defs.{next_epoch}
use yaay_rs.Base.{
  if◌then◌else◌, not, Bool, true, false, ℕ, zero, suc, ◌≡◌, inl, inr, ◌∙◌, refl, sym, ap, List, [],
  ◌∷◌, ◌++◌, some, get_elem?, length, total, arith, get_elem?-of_lt, lt_of_get_elem?,
}
use yaay_rs.Task.Heap.{Ptr, Heap}
use yaay_rs.Task.Protocol.{is_settled}
use yaay_rs.TaskList.Defs.{TaskList}
use yaay_rs.TaskList.Chain.{member-append, IsList, Disjoint}
use yaay_rs.TaskList.Alike.{Alike, Alike-Live}
use yaay_rs.Shared.State.{Runtime}
use yaay_rs.Shared.View.{Contents, View, Nowhere}
use yaay_rs.Batch.Split.{Split}
use yaay_rs.Batch.Laws.{append-nil, all_empty, zip, AllNull}
use yaay_rs.Wake.{batch}
use yaay_rs.RuntimeApi.{RuntimeApi}
use yaay_rs.EventLoop.{LoopState, flush}
use yaay_rs.EventLoop.Facts.{Calls, no_call, call, Parked, Somewhere, Good, InList}
use yaay_rs.EventLoop.Delivery.{Step}

-- As many sequences, all empty.
abbrev pub cleared : Contents → Contents
cleared [] = []
cleared (xs ∷ d) = [] ∷ cleared d

cleared-empty : (d : Contents) (i : ℕ) (xs : List Ptr) → get_elem? (cleared d) i ≡ some xs → [] ≡ xs
cleared-empty [] i xs at = absurd (ground arith)
cleared-empty (ys ∷ d) zero xs at = cc
cleared-empty (ys ∷ d) (suc i) xs at = cleared-empty d i xs at

length-cleared : (d : Contents) → length (cleared d) ≡ length d
length-cleared [] = refl
length-cleared (xs ∷ d) = ap suc (length-cleared d)

pub cleared-length : (d : Contents) → total length (cleared d) ≡ 0
unfolding total
cleared-length [] = refl
cleared-length (xs ∷ d) = omega (arith, cleared-length d)

cleared-Nowhere : (p : Ptr) (d : Contents) → Nowhere p (cleared d)
cleared-Nowhere p [] = tt
cleared-Nowhere p (xs ∷ d) = (refl, cleared-Nowhere p d)

Disjoint-nil : (xs : List Ptr) → Disjoint xs []
Disjoint-nil [] = tt
Disjoint-nil (x ∷ xs) = (refl, Disjoint-nil xs)

AllNull-get :
    (h : Heap) (ls : List TaskList) (i : ℕ) (l : TaskList)
    → AllNull ls
    → get_elem? ls i ≡ some l
    → IsList h l []
AllNull-get h [] i l nulls at = absurd (ground arith)
AllNull-get h (m ∷ ls) zero l nulls at = let e : m ≡ l = cc in rw (← e) nulls.0
AllNull-get h (m ∷ ls) (suc i) l nulls at = AllNull-get h ls i l nulls.1 at

-- Null lists, beside the queues.
pub cleared-Split :
    (rt : Runtime) (c d : Contents) (ls : List TaskList)
    → View rt c
    → AllNull ls
    → length ls ≡ length d
    → Split rt.heap rt.queues c ls (cleared d)
cleared-Split rt c d ls v nulls sized = record {
  queues = v;
  locals = record {
    sized = sized ∙ sym (length-cleared d);
    lists =
        λ i l xs at_q at. rw (← cleared-empty d i xs at) (AllNull-get rt.heap ls i l nulls at_q);
    apart = λ i j xs ys ne at_i at_j. rw (← cleared-empty d i xs at_i) tt;
  };
  cross = λ i j xs ys at_i at_j. rw (← cleared-empty d j ys at_j) (Disjoint-nil xs, tt);
}

length-zip : (c d : Contents) → length (zip c d) ≡ length c
length-zip [] d = refl
length-zip (xs ∷ c) [] = refl
length-zip (xs ∷ c) (ys ∷ d) = ap suc (length-zip c d)

pub zip-all_empty : (c d : Contents) → length c ≡ length d → all_empty d ≡ true → zip c d ≡ c
zip-all_empty [] d sized e = refl
zip-all_empty (xs ∷ c) [] sized e = refl
zip-all_empty (xs ∷ c) ([] ∷ d) sized e =
    ap (λ ys. ys ∷ zip c d) (append-nil xs)
    ∙ ap (λ r. xs ∷ r) (zip-all_empty c d (omega (arith, sized)) e)
zip-all_empty (xs ∷ c) ((y ∷ ys) ∷ d) sized e = absurd (ground arith)

-- One call of `next_epoch`, unless all local lists are empty.
Calls-if :
    (empty : Bool) (w v : ℕ)
    → v ≡ (if empty then w else (next_epoch w).word)
    → Calls (not empty) w v
Calls-if true w v e = rw e no_call
Calls-if false w v e = rw e (call no_call)

zip-Nowhere : (p : Ptr) (c d : Contents) → Nowhere p c → Nowhere p d → Nowhere p (zip c d)
zip-Nowhere p [] d out_c out_d = tt
zip-Nowhere p (xs ∷ c) [] out_c out_d = out_c
zip-Nowhere p (xs ∷ c) (ys ∷ d) out_c out_d =
    (ground (arith, member-append p xs ys), zip-Nowhere p c d out_c.1 out_d.1)

zip-get :
    (c d : Contents) (i : ℕ) (xs ys : List Ptr)
    → get_elem? c i ≡ some xs
    → get_elem? d i ≡ some ys
    → get_elem? (zip c d) i ≡ some (xs ++ ys)
zip-get [] d i xs ys at_c at_d = absurd (ground arith)
zip-get (us ∷ c) [] i xs ys at_c at_d = absurd (ground arith)
zip-get (us ∷ c) (zs ∷ d) zero xs ys at_c at_d =
    let e_x : us ≡ xs = cc in let e_y : zs ≡ ys = cc in rw (e_x, e_y) refl
zip-get (us ∷ c) (zs ∷ d) (suc i) xs ys at_c at_d = zip-get c d i xs ys at_c at_d

zip-Somewhere :
    (p : Ptr) (c d : Contents)
    → length c ≡ length d
    → (Somewhere p c → Somewhere p (zip c d)) × (Somewhere p d → Somewhere p (zip c d))
zip-Somewhere p c d sized = (
  λ (i, xs, at, m).
      let (ys, at_d) = get_elem?-of_lt d i (omega (arith, sized, lt_of_get_elem? c i xs at)) in
      (i, xs ++ ys, zip-get c d i xs ys at at_d, ground (arith, member-append p xs ys)),
  λ (i, ys, at, m).
      let (xs, at_c) = get_elem?-of_lt c i (omega (arith, sized, lt_of_get_elem? d i ys at)) in
      (i, xs ++ ys, zip-get c d i xs ys at_c at, ground (arith, member-append p xs ys)),
)

-- The local lists of `g` are appended to the queues, and are null.
abbrev pub Flushed : {s t : LoopState} → Good s → Good t → Type 0
Flushed g g' =
    (g'.queued ≡ zip g.queued g.collected) × (g'.collected ≡ cleared g.collected) × AllNull g'.lists

module _ (api : RuntimeApi) (s : LoopState) (g : Good s) where
  flush-run :
      (lists : List TaskList) (rt : Runtime)
      → api.push_batch (batch g.lists) s.rt ≡ some (batch lists, rt)
      → flush api s ≡ some (record s { rt = rt; local = batch lists })
  unfolding flush
  flush-run lists rt ran =
      let e : api.push_batch s.local s.rt ≡ some (batch lists, rt) = rw g.batched ran in
      rw (flush, e) refl

  Parked-back : (h : Heap) (p : Ptr) → Alike s.rt.heap h → Parked h p → Parked s.rt.heap p
  Parked-back h p alike w =
      let (v, e, _) = Alike-Live (λ a. sym (alike a)) w.live in
      record { live = v; unsettled = ap is_settled e ∙ w.unsettled }

  flushed-Good :
      (lists : List TaskList) (rt : Runtime)
      → View rt (zip g.queued g.collected)
      → AllNull lists
      → length lists ≡ length g.lists
      → Alike s.rt.heap rt.heap
      → Good (record s { rt = rt; local = batch lists })
  flushed-Good lists rt v nulls sized alike = record {
    lists = lists;
    queued = zip g.queued g.collected;
    collected = cleared g.collected;
    batched = refl;
    split = cleared-Split rt _ g.collected lists v nulls (sized ∙ g.split.locals.sized);
    sized = length-zip g.queued g.collected ∙ (g.sized ∙ sym (length-cleared g.collected));
    idle = λ p w.
        let out = g.idle p (Parked-back rt.heap p alike w) in
        (zip-Nowhere p g.queued g.collected out.0 out.1, cleared-Nowhere p g.collected);
    homed = λ p w.
        let (u, _, id) = Alike-Live (λ a. sym (alike a)) w in
        omega (arith, id, g.homed p u, length-zip g.queued g.collected);
    wakers = λ p e at. (Alike-Live alike (g.wakers p e at)).0;
  }

  pub flush-Step : (step : Step 0 g (flush api s)) × Flushed g step.good
  unfolding flushed-Good
  flush-Step =
      let sized : length g.queued ≡ length g.lists = g.sized ∙ sym g.split.locals.sized in
      let (lists, rt, ran, done) =
        api.push_batch-Delivers s.rt g.queued g.lists g.collected sized g.split in
      let moved = λ (p : Ptr). zip-Somewhere p g.queued g.collected g.sized in
      (
        record {
          after = record s { rt = rt; local = batch lists };
          good = flushed-Good lists rt done.view done.nulls done.sized done.alike;
          ran = flush-run lists rt ran;
          next = record {
            lives = λ p v. (Alike-Live done.alike v).0;
            parks = λ p w.
                let (v, e, _) = Alike-Live done.alike w.live in
                inl (record { live = v; unsettled = ap is_settled e ∙ w.unsettled });
            stays =
                λ p there. elim there [ inl q ↦ inl ((moved p).0 q) | inr q ↦ inl ((moved p).1 q) ];
            inners = λ p e at. inl at;
          };
          small = omega (arith, cleared-length g.collected);
          called = not (all_empty g.collected);
          calls = Calls-if (all_empty g.collected) s.rt.status rt.status done.status;
          announced = λ e. zip-all_empty g.queued g.collected g.sized (ground (arith, e));
        },
        (refl, refl, done.nulls),
      )

-- What is in a list after `push_batch` is in a queue.
pub Flushed-queued :
    (s : LoopState) (g : Good s) {t : LoopState} (g' : Good t)
    → Flushed g g'
    → (p : Ptr) → InList p g'
    → Somewhere p g'.queued
Flushed-queued s g g' flushed p there = elim there [
  | inl q ↦ q
  | inr (i, xs, at, m) ↦
      let none_here : [] ≡ xs =
        cleared-empty g.collected i xs (ap (λ d. get_elem? d i) (sym flushed.1) ∙ at) in
      absurd (ground arith)
]
