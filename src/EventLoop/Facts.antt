-- ===== src/EventLoop/Facts.antt =====
-- What holds of the state of the event loop between its calls, and how one such state follows another.
use yaay_rs.Epoch.Defs.{next_epoch}
use yaay_rs.Base.{
  Bool, ◌||◌, ℕ, ◌<◌, ◌≡◌, ◌⊎◌, inl, inr, true, false, List, some, get_elem?, length, total,
}
use yaay_rs.Task.Heap.{Ptr, Heap}
use yaay_rs.Task.Protocol.{is_settled}
use yaay_rs.TaskList.Defs.{TaskList}
use yaay_rs.TaskList.Chain.{member, Live}
use yaay_rs.Shared.View.{Contents, Nowhere}
use yaay_rs.Batch.Split.{Split}
use yaay_rs.Wake.{batch}
use yaay_rs.Dispatcher.{is_parked}
use yaay_rs.EventLoop.{Inner, LoopState, swapped}

-- A task lives at `p` that is neither muted nor dropped: a wake of it counts.
pub record Parked (h : Heap) (p : Ptr) : Type 0 where
  pub live : Live h p
  pub unsettled : is_settled live.here.status ≡ false

-- The task is in one of the sequences.
abbrev pub Somewhere : Ptr → Contents → Type 0
Somewhere p c = (i : ℕ) × (xs : List Ptr) × (get_elem? c i ≡ some xs) × (member p xs ≡ true)

-- The thread is in batch mode. Its local lists and the queues are lists of the tasks `collected` and
-- `queued`, for the same workers; a parked task is in none of them, every task is for one of the
-- workers, and every dispatcher has the waker of a task that lives.
pub record Good (s : LoopState) : Type 0 where
  pub lists : List TaskList
  pub queued : Contents
  pub collected : Contents
  pub batched : s.local ≡ batch lists
  pub split : Split s.rt.heap s.rt.queues queued lists collected
  pub sized : length queued ≡ length collected
  pub idle : (p : Ptr) → Parked s.rt.heap p → Nowhere p queued × Nowhere p collected
  pub homed : (p : Ptr) (v : Live s.rt.heap p) → v.here.worker_id < length queued
  pub wakers : (p : Ptr) (e : Inner) → s.inners p ≡ some e → Live s.rt.heap e.waker

-- The status word after calls of `next_epoch`, and whether there were any.
pub data Calls : Bool → ℕ → ℕ → Type 0 where
  no_call : {w : ℕ} → Calls false w w
  call : {b : Bool} {w v : ℕ} → Calls b w v → Calls true w (next_epoch v).word

pub Calls-trans : {b c : Bool} {u v w : ℕ} → Calls b u v → Calls c v w → Calls (c || b) u w
Calls-trans a no_call = a
Calls-trans a (call k) = call (Calls-trans a k)

-- How many tasks the local lists hold.
abbrev pub held : {s : LoopState} → Good s → ℕ
held g = total length g.collected

-- The task is on its way to a worker.
abbrev pub InList : {s : LoopState} → Ptr → Good s → Type 0
InList p g = Somewhere p g.queued ⊎ Somewhere p g.collected

-- The dispatcher has been notified, and its task was woken if it was parked for it.
abbrev pub Notified : {t : LoopState} → Ptr → Inner → Heap → Good t → Type 0
Notified {t} p e h g' =
    (t.inners p ≡ some (swapped e))
    × (is_parked e.status ≡ true → Parked h e.waker → InList e.waker g')

-- No task is freed, no parked task is muted without being put in a list, no task leaves the lists, and
-- a dispatcher changes by being notified.
pub record Next {s t : LoopState} (g : Good s) (g' : Good t) : Type 0 where
  pub lives : (p : Ptr) → Live s.rt.heap p → Live t.rt.heap p
  pub parks : (p : Ptr) → Parked s.rt.heap p → Parked t.rt.heap p ⊎ InList p g'
  pub stays : (p : Ptr) → InList p g → InList p g'
  pub inners :
      (p : Ptr) (e : Inner)
      → s.inners p ≡ some e
      → (t.inners p ≡ some e) ⊎ Notified p e s.rt.heap g'

pub Next-refl : {s : LoopState} (g : Good s) → Next g g
Next-refl g = record {
  lives = λ p v. v;
  parks = λ p v. inl v;
  stays = λ p v. v;
  inners = λ p e at. inl at;
}

pub Notified-after :
    {h : Heap} {t u : LoopState} {g : Good t} {g' : Good u} (p : Ptr) (e : Inner)
    → Notified p e h g
    → Next g g'
    → Notified p e h g'
Notified-after p e n next = (
  elim (next.inners p (swapped e) n.0) [ inl at ↦ at | inr more ↦ more.0 ],
  λ parked v. next.stays e.waker (n.1 parked v),
)

module _ {s t u : LoopState} {g : Good s} {g' : Good t} {g'' : Good u} where
  pub Notified-before :
      (p : Ptr) (e : Inner)
      → Next g g'
      → Next g' g''
      → Notified p e t.rt.heap g''
      → Notified p e s.rt.heap g''
  Notified-before p e next next' n = (
    n.0,
    λ parked v. elim (next.parks e.waker v) [
      | inl w ↦ n.1 parked w
      | inr i ↦ next'.stays e.waker i
    ],
  )

  pub Next-trans : Next g g' → Next g' g'' → Next g g''
  Next-trans a b = record {
    lives = λ p v. b.lives p (a.lives p v);
    parks = λ p v. elim (a.parks p v) [ inl w ↦ b.parks p w | inr i ↦ inr (b.stays p i) ];
    stays = λ p i. b.stays p (a.stays p i);
    inners = λ p e at. elim (a.inners p e at) [
      | inl at' ↦ elim (b.inners p e at') [
        | inl at'' ↦ inl at''
        | inr n ↦ inr (Notified-before p e a b n)
      ]
      | inr n ↦ inr (Notified-after p e n b)
    ];
  }

-- Every dispatcher at `p` has been notified.
abbrev pub Told : {t : LoopState} → Ptr → LoopState → Good t → Type 0
Told p s g' = (e : Inner) → s.inners p ≡ some e → Notified p e s.rt.heap g'

pub Told-between :
    {s t u w : LoopState} {g : Good s} {g1 : Good t} {g2 : Good u} {g3 : Good w} (p : Ptr)
    → Next g g1
    → Next g1 g2
    → Told p t g2
    → Next g2 g3
    → Told p s g3
Told-between p a b told c e at = elim (a.inners p e at) [
  | inl at' ↦ Notified-after p e (Notified-before p e a b (told e at')) c
  | inr n ↦ Notified-after p e n (Next-trans b c)
]

pub here_unique : {h : Heap} {p : Ptr} (v w : Live h p) → v.here ≡ w.here
here_unique v w = cc (v.holds, w.holds)
