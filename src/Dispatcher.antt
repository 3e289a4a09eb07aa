-- ===== src/Dispatcher.antt =====
-- One `Dispatcher` (yaay-mio/src/dispatcher.rs), between the task that waits for its I/O by `io_poll`
-- (macros.rs) and the reactor thread that hands it events (shared.rs), an access at a time.
mod Invariant
pub mod Safety
pub mod Examples
use yaay_rs.Base.{ℕ, ◌+◌, ◌≡◌, Bool, true, false, ◌||◌, not, if◌then◌else◌}

-- The status byte: `NOTIFIED = 2`, `MUTED = 1`.
pub record Bits : Type 0 where
  pub muted : Bool
  pub notified : Bool

abbrev pub bits : Bool → Bool → Bits
bits m n = record { muted = m; notified = n }

-- `prev & (MUTED | NOTIFIED) == 0`
abbrev pub is_parked : Bits → Bool
is_parked prev = not (prev.muted || prev.notified)

-- What the two threads share, with the state of the source of events. The last three fields are
-- history, which no code reads.
pub record IoCell : Type 0 where
  pub status : Bits
  pub in_slot : Bool  -- the slot of the slab points to the dispatcher
  pub freed : Bool
  pub ready : Bool  -- an I/O call would not block
  pub event : Bool  -- mio has an event to report
  pub woken : Bool  -- the waker was called since the task last parked
  pub parks : ℕ  -- how often `compare_exchange_weak` has succeeded
  pub wakes : ℕ  -- how often the waker was called

-- Where the owner of the dispatcher stands.
pub data Client : Type 0 where
  absent : Client  -- before `Dispatcher::new`
  idle : Client  -- outside `io_poll`, or at the start of its loop
  prepared : Client  -- after `prepare_io`, before `$io`
  blocked : Client  -- in the loop of `wait_io`
  waiting : Client  -- `PendingOnce` has returned `Pending`
  removed : Client  -- in `del`, after the slot was cleared
  gone : Client  -- after `do_drop`

-- Where the reactor thread stands.
pub data Reactor : Type 0 where
  polling : Reactor
  fetched : Reactor  -- it has the event, and not yet the lock of `dispatchers`
  locked : Reactor  -- under the lock, before the test of the slot
  notifying : Reactor  -- start of `notify`
  waking : Reactor  -- before `wake_by_ref`
  unlocking : Reactor  -- before the end of the lock

-- Is the lock of `dispatchers` free?
abbrev pub is_free : Reactor → Bool
is_free polling = true
is_free fetched = true
is_free _ = false

-- Where the dispatcher may be dropped: at an await, or outside of `io_poll`.
abbrev pub is_droppable : Client → Bool
is_droppable idle = true
is_droppable waiting = true
is_droppable _ = false

abbrev pub swap_mem : IoCell → IoCell
swap_mem m = record m { status = bits true true }

-- One access of the reactor.
pub data ReactorMove (m : IoCell) : Reactor → IoCell → Reactor → Type 0 where
  -- the reactor's loop
  fetch : m.event ≡ true → ReactorMove m polling (record m { event = false }) fetched
  lock : ReactorMove m fetched m locked
  find : m.in_slot ≡ true → ReactorMove m locked m notifying
  skip : m.in_slot ≡ false → ReactorMove m locked m unlocking
  -- `notify`
  swap : ReactorMove m notifying (swap_mem m) (if is_parked m.status then waking else unlocking)
  wake : ReactorMove m waking (record m { woken = true; wakes = m.wakes + 1 }) unlocking
  unlock : ReactorMove m unlocking m polling

-- One access of the owner, the source of events or the reactor.
pub data IoMove (m : IoCell) : Client → Reactor → IoCell → Client → Reactor → Type 0 where
  -- `new_from_waker`
  install :
      {r : Reactor}
      → is_free r ≡ true
      → IoMove m absent r (record m { status = bits true false; in_slot = true }) idle r
  -- `io_poll`
  prepare : {r : Reactor} → IoMove m idle r (record m { status = bits true false }) prepared r
  io_done : {r : Reactor} (still : Bool) → IoMove m prepared r (record m { ready = still }) idle r
  io_error : {r : Reactor} → IoMove m prepared r m idle r
  io_would_block : {r : Reactor} → m.ready ≡ false → IoMove m prepared r m blocked r
  -- `wait_io`
  cas :
      {r : Reactor}
      → m.status ≡ bits true false
      → IoMove m blocked r
          (record m { status = bits false false; parks = m.parks + 1; woken = false })
          waiting
          r
  cas_other : {r : Reactor} → (m.status ≡ bits true false → ⊥) → IoMove m blocked r m idle r
  cas_again : {r : Reactor} → m.status ≡ bits true false → IoMove m blocked r m blocked r
  -- the task is polled again, by this waker or another
  resume : {r : Reactor} → IoMove m waiting r m idle r
  -- `del`
  del :
      {c : Client} {r : Reactor}
      → is_droppable c ≡ true
      → is_free r ≡ true
      → IoMove m c r (record m { in_slot = false }) removed r
  free : {r : Reactor} → IoMove m removed r (record m { freed = true }) gone r
  -- the source becomes ready, or mio reports an event without need
  arrive : {c : Client} {r : Reactor} → IoMove m c r (record m { ready = true; event = true }) c r
  spurious : {c : Client} {r : Reactor} → IoMove m c r (record m { event = true }) c r
  by_reactor :
      {c : Client} {r r' : Reactor} {m' : IoCell} → ReactorMove m r m' r' → IoMove m c r m' c r'

abbrev pub new_cell : IoCell
new_cell = record {
  status = bits true false;
  in_slot = false;
  freed = false;
  ready = false;
  event = false;
  woken = false;
  parks = 0;
  wakes = 0;
}

-- The states that the two threads reach, from a registered source without a dispatcher.
pub data IoReach : IoCell → Client → Reactor → Type 0 where
  start : IoReach new_cell absent polling
  later :
      {m m' : IoCell} {c c' : Client} {r r' : Reactor}
      → IoReach m c r
      → IoMove m c r m' c' r'
      → IoReach m' c' r'
