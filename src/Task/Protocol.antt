-- ===== src/Task/Protocol.antt =====
-- One task and every thread that touches it, an atomic access at a time: `Task::wake`, `Task::poll`,
-- `Task::drop_in_place`, `rc_inc` and `rc_dec` of yaay-mt-runtime/src/task.rs, as the wakers of
-- task_waker.rs, the workers and the guard of worker_manager.rs call them.
pub mod Invariant
pub mod Safety
pub mod Examples
use yaay_rs.Base.{
  ℕ, ◌+◌, ◌-◌, ◌%◌, ◌^◌, ◌<◌, ◌≡◌, Bool, true, false, ◌==◌, if◌then◌else◌, List, [], ◌∷◌, ◌++◌,
  some, get_elem?, set, length,
}
use yaay_rs.Task.Status.{
  Status, muted_bit, notified_bit, dropped_bit, no_bits, or_bits, and_bits, not_bits, has_bits,
  eq_bits,
}

abbrev pub usize_mod : ℕ
usize_mod = 2 ^ 64

-- What the threads share. The last four fields are history, which no code reads.
pub record Shared : Type 0 where
  pub status : Status
  pub rc : ℕ  -- AtomicUsize
  pub queued : ℕ  -- how often the task is linked into a queue
  pub pending : Bool  -- woken since its future was last called
  pub drops : ℕ  -- calls of `fn_drop_in_place`
  pub frees : ℕ  -- calls of `fn_dealloc`

-- Who called `wake`: a waker's owner, or the future while it is polled.
pub data Caller : Type 0 where
  owner future : Caller

-- Where a thread stands with respect to the task.
pub data Pc : Type 0 where
  away : Pc  -- it has no reference
  spawning : Pc  -- after `Task::new`, before the push to a queue
  holds : Pc  -- it owns a `Waker`
  woken : (c : Caller) (prev : Status) → Pc  -- `wake`, after its `fetch_or`
  pushing : (c : Caller) → Pc  -- before the push to a queue
  popped : Pc  -- start of `poll`
  polling : Pc  -- in `fn_poll`
  cas : (prev : Status) → Pc  -- the `'cas` loop
  ready : Pc  -- after `Poll::Ready`
  discarding : Pc  -- start of `drop_in_place`
  discarded : (prev : Status) → Pc  -- `drop_in_place`, after its `fetch_or`
  dropping : Pc  -- before `fn_drop_in_place`
  releasing : Pc  -- start of `rc_dec`
  freeing : Pc  -- before `fn_dealloc`

abbrev pub resume : Caller → Pc
resume owner = holds
resume future = polling

-- `prev & (MUTED | DROPPED) != 0`
abbrev pub is_settled : Status → Bool
is_settled prev = has_bits (and_bits prev (or_bits muted_bit dropped_bit))

-- `prev & DROPPED == 0`
abbrev pub is_first_drop : Status → Bool
is_first_drop prev = if has_bits (and_bits prev dropped_bit) then false else true

abbrev pub wake_mem : Shared → Shared
wake_mem m = record m { status = or_bits m.status (or_bits muted_bit notified_bit); pending = true }

abbrev pub mark_mem : Shared → Shared
mark_mem m = record m { status = or_bits m.status dropped_bit }

-- One access of one thread.
pub data Move (m : Shared) : Pc → Shared → Pc → Type 0 where
  -- `wake`
  wake_held : Move m holds (wake_mem m) (woken owner m.status)
  wake_polled : Move m polling (wake_mem m) (woken future m.status)
  wake_skip :
      {c : Caller} {prev : Status} → is_settled prev ≡ true → Move m (woken c prev) m (resume c)
  wake_schedule :
      {c : Caller} {prev : Status} → is_settled prev ≡ false → Move m (woken c prev) m (pushing c)
  push : {c : Caller} → Move m (pushing c) (record m { queued = m.queued + 1 }) (resume c)
  spawn : Move m spawning (record m { queued = m.queued + 1 }) away
  -- `poll`
  pop : 0 < m.queued → Move m away (record m { queued = m.queued - 1 }) popped
  begin :
      Move m popped
        (record m { status = and_bits m.status (not_bits notified_bit); pending = false })
        polling
  poll_pending : Move m polling m (cas muted_bit)
  poll_ready : Move m polling m ready
  cas_park :
      {prev : Status}
      → eq_bits prev muted_bit ≡ true
      → m.status ≡ prev
      → Move m (cas prev) (record m { status = no_bits }) away
  cas_repoll :
      {prev : Status}
      → eq_bits prev muted_bit ≡ false
      → m.status ≡ prev
      → Move m (cas prev) (record m { status = muted_bit; pending = false }) polling
  cas_fail : {prev : Status} → Move m (cas prev) m (cas m.status)
  mark : Move m ready (mark_mem m) dropping
  -- `drop_in_place`, called by the guard on what it finds in the queues
  discard_pop : 0 < m.queued → Move m away (record m { queued = m.queued - 1 }) discarding
  discard_mark : Move m discarding (mark_mem m) (discarded m.status)
  discard_first : {prev : Status} → is_first_drop prev ≡ true → Move m (discarded prev) m dropping
  discard_again : {prev : Status} → is_first_drop prev ≡ false → Move m (discarded prev) m releasing
  drop_future : Move m dropping (record m { drops = m.drops + 1 }) releasing
  -- the drop of a waker; `rc_dec`
  drop_waker : Move m holds m releasing
  dec :
      Move m releasing
        (record m { rc = (m.rc + usize_mod - 1) % usize_mod })
        (if m.rc == 1 then freeing else away)
  free : Move m freeing (record m { frees = m.frees + 1 }) away

pub record System : Type 0 where
  pub mem : Shared
  pub threads : List Pc

-- Who may clone the waker: its owner, and the future from its context.
abbrev pub can_clone : Pc → Bool
can_clone holds = true
can_clone polling = true
can_clone _ = false

-- A thread moves, or a waker is cloned and given to a new thread. A waker takes memory, so there are
-- fewer than `usize::MAX` of them.
pub data Step (s : System) : System → Type 0 where
  move :
      (i : ℕ) {p q : Pc} {m : Shared}
      → get_elem? s.threads i ≡ some p
      → Move s.mem p m q
      → Step s (record { mem = m; threads = set s.threads i q })
  clone :
      (i : ℕ) {p : Pc}
      → get_elem? s.threads i ≡ some p
      → can_clone p ≡ true
      → length s.threads + 2 < usize_mod
      → Step s (record {
        mem = record (s.mem) { rc = (s.mem.rc + 1) % usize_mod };
        threads = s.threads ++ holds ∷ [];
      })

-- `Task::new`, with the thread that is about to push the task, and `n` other threads
abbrev pub new_shared : Shared
new_shared = record {
  status = or_bits muted_bit notified_bit;
  rc = 1;
  queued = 0;
  pending = true;
  drops = 0;
  frees = 0;
}

abbrev pub init : List Pc → System
init others = record { mem = new_shared; threads = spawning ∷ others }

abbrev pub AllAway : List Pc → Type 0
AllAway [] = Unit
AllAway (p ∷ ps) = (p ≡ away) × AllAway ps

pub data Reach : System → Type 0 where
  start : (others : List Pc) → AllAway others → length others + 2 < usize_mod → Reach (init others)
  later : {s t : System} → Reach s → Step s t → Reach t
