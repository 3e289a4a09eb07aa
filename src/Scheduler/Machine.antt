-- ===== src/Scheduler/Machine.antt =====
-- The state and the steps. A queue is the number of its tasks; what a task does is left open. Time is
-- measured in the shortest time that a `fetch_add(EPOCH)` takes, and `max_duration` is MAX_DURATION
-- in this unit.
use yaay_rs.Base.{
  ℕ, ◌+◌, ◌-◌, ◌≤◌, ◌<◌, ◌≡◌, ◌≢◌, Bool, true, false, ◌==◌, if◌then◌else◌, List, some, map, [], ◌∷◌,
  get_elem?, set, length,
}
use yaay_rs.Epoch.Defs.{active_count, epoch, set_active, set_inactive, next_epoch, validate}

-- What the threads share. `ticks` counts the calls of `next_epoch`, and no code reads it.
pub record Mem : Type 0 where
  pub status : ℕ  -- the `AtomicU32` of `Epoch`
  pub clock : ℕ
  pub queue : ℕ → ℕ  -- tasks in the local queue of each worker
  pub pushers : ℕ  -- threads that have pushed tasks and not yet called `next_epoch`
  pub wakers : ℕ  -- threads in `next_epoch`, before its `unpark_all`
  pub ticks : ℕ

-- Where a worker stands. `old` is `old_status`, `t` is `old_instant`; `k` and `r` are the ticks at
-- which `t` and `old` were read.
pub data Pc : Type 0 where
  draining : Pc  -- head of the `'local` loop
  timing : Pc  -- after it
  stopping : (t k : ℕ) → Pc  -- before `set_inactive`
  searching : (old t k r : ℕ) → Pc  -- head of the `'task` loop
  checked : (old t k r : ℕ) → Pc  -- start of `wait_next_epoch`
  entering : (old t k r : ℕ) → Pc  -- start of `wait_slow`
  parked : (old t k r : ℕ) → Pc
  renewing : (old : ℕ) → Pc  -- before the second `get_instant`
  reading : (old t k : ℕ) → Pc  -- before `get_status`
  comparing : (old new t k r : ℕ) → Pc  -- the test of the two epochs
  found : Pc  -- before `set_active`
  waking : Pc  -- in `set_active`, before its `unpark_all`
  polling : Pc  -- in `poll_task`
  exited : Pc  -- after `return`

abbrev pub queue_set : (ℕ → ℕ) → ℕ → ℕ → ℕ → ℕ
queue_set q i n j = if j == i then n else q j

abbrev pub push_mem : Mem → ℕ → Mem
push_mem m i = record m { queue = queue_set m.queue i (m.queue i + 1) }

abbrev pub pop_mem : Mem → ℕ → Mem
pop_mem m i = record m { queue = queue_set m.queue i (m.queue i - 1) }

-- One step of worker `w` of `n`.
pub data Move (n max_duration : ℕ) (m : Mem) (w : ℕ) : Pc → Mem → Pc → Type 0 where
  pop_local : 0 < m.queue w → Move n max_duration m w draining (pop_mem m w) polling
  drained : m.queue w ≡ 0 → Move n max_duration m w draining m timing
  get_instant : Move n max_duration m w timing m (stopping m.clock m.ticks)
  stop :
      {t k : ℕ}
      → Move n max_duration m w
          (stopping t k)
          (record m { status = (set_inactive m.status).word })
          (searching (set_inactive m.status).result t k m.ticks)
  steal :
      {old t k r : ℕ} (victim : ℕ)
      → active_count old ≢ 0
      → victim < n
      → victim ≢ w
      → 0 < m.queue victim
      → Move n max_duration m w (searching old t k r) (pop_mem m victim) found
  steal_none :
      {old t k r : ℕ}
      → active_count old ≢ 0
      → Move n max_duration m w (searching old t k r) m (renewing old)
  pop_last :
      {old t k r : ℕ}
      → active_count old ≡ 0
      → 0 < m.queue w
      → Move n max_duration m w (searching old t k r) (pop_mem m w) found
  check :
      {old t k r : ℕ}
      → active_count old ≡ 0
      → m.queue w ≡ 0
      → Move n max_duration m w (searching old t k r) m (checked old t k r)
  changed :
      {old t k r : ℕ}
      → m.status ≢ old
      → Move n max_duration m w (checked old t k r) m (renewing old)
  unchanged :
      {old t k r : ℕ}
      → m.status ≡ old
      → Move n max_duration m w (checked old t k r) m (entering old t k r)
  refuse :
      {old t k r : ℕ} (spurious : Bool)
      → validate spurious m.status old (m.clock - t) max_duration ≡ false
      → Move n max_duration m w (entering old t k r) m (renewing old)
  park :
      {old t k r : ℕ} (spurious : Bool)
      → validate spurious m.status old (m.clock - t) max_duration ≡ true
      → Move n max_duration m w (entering old t k r) m (parked old t k r)
  renew : {old : ℕ} → Move n max_duration m w (renewing old) m (reading old m.clock m.ticks)
  get_status :
      {old t k : ℕ}
      → Move n max_duration m w (reading old t k) m (comparing old m.status t k m.ticks)
  pop_newer :
      {old new t k r : ℕ}
      → epoch old < epoch new
      → 0 < m.queue w
      → Move n max_duration m w (comparing old new t k r) (pop_mem m w) found
  newer_empty :
      {old new t k r : ℕ}
      → epoch old < epoch new
      → m.queue w ≡ 0
      → Move n max_duration m w (comparing old new t k r) m (searching new t k r)
  not_newer :
      {old new t k r : ℕ}
      → epoch new ≤ epoch old
      → Move n max_duration m w (comparing old new t k r) m (searching new t k r)
  resume :
      Move n max_duration m w found
        (record m { status = (set_active m.status).word })
        (if (set_active m.status).wakes then waking else polling)
  push_own : Move n max_duration m w polling (push_mem m w) polling
  polled : Move n max_duration m w polling m draining
  exit : Move n max_duration m w polling m exited

-- `unpark_all` on one thread
abbrev pub unpark : Pc → Pc
unpark (parked old t k r) = renewing old
unpark p = p

-- `next_epoch` up to its `unpark_all`; it takes a unit of time or more.
abbrev pub bump_mem : Mem → ℕ → Mem
bump_mem m more = record m {
  status = (next_epoch m.status).word;
  clock = m.clock + 1 + more;
  wakers = if (next_epoch m.status).wakes then m.wakers + 1 else m.wakers;
  ticks = m.ticks + 1;
}

pub record System : Type 0 where
  pub mem : Mem
  pub workers : List Pc

-- A worker moves, or a thread that pushes tasks does: one outside of the runtime, or a task that a
-- worker polls.
pub data Step (n max_duration : ℕ) (s : System) : System → Type 0 where
  work :
      (w : ℕ) {p q : Pc} {m : Mem}
      → get_elem? s.workers w ≡ some p
      → Move n max_duration s.mem w p m q
      → Step n max_duration s (record { mem = m; workers = set s.workers w q })
  worker_wakes :
      (w : ℕ)
      → get_elem? s.workers w ≡ some waking
      → Step n max_duration s
          (record { mem = s.mem; workers = map unpark (set s.workers w polling) })
  first_push :
      (i : ℕ)
      → Step n max_duration s
          (record s { mem = record (push_mem s.mem i) { pushers = s.mem.pushers + 1 } })
  next_push :
      (i : ℕ) → 0 < s.mem.pushers → Step n max_duration s (record s { mem = push_mem s.mem i })
  announce :
      (more : ℕ)
      → 0 < s.mem.pushers
      → Step n max_duration s
          (record s { mem = record (bump_mem s.mem more) { pushers = s.mem.pushers - 1 } })
  announce_nothing : (more : ℕ) → Step n max_duration s (record s { mem = bump_mem s.mem more })
  pusher_wakes :
      0 < s.mem.wakers
      → Step n max_duration s (record {
        mem = record (s.mem) { wakers = s.mem.wakers - 1 };
        workers = map unpark s.workers;
      })
  wait :
      (d : ℕ)
      → Step n max_duration s (record s { mem = record (s.mem) { clock = s.mem.clock + d } })

abbrev pub AllDraining : List Pc → Type 0
AllDraining [] = Unit
AllDraining (p ∷ ps) = (p ≡ draining) × AllDraining ps

-- `Epoch::new(n)`, and `n` workers that start with empty queues
abbrev pub init_mem : ℕ → Mem
init_mem n = record { status = n; clock = 0; queue = λ _. 0; pushers = 0; wakers = 0; ticks = 0 }

pub data Reach (n max_duration : ℕ) : System → Type 0 where
  start :
      (ws : List Pc)
      → AllDraining ws
      → length ws ≡ n
      → Reach n max_duration (record { mem = init_mem n; workers = ws })
  later : {s t : System} → Reach n max_duration s → Step n max_duration s t → Reach n max_duration t
