-- ===== src/Shutdown.antt =====
-- The shutdown of all workers: `MTRuntime::shutdown_async` (yaay-mt-runtime/src/runtime.rs), the future
-- `Shutdown` and the exit of `Worker::main_loop` (yaay-mt-runtime/src/worker.rs), an access at a time.
-- A queue is the number of its `Shutdown` tasks; there are no other tasks, and
-- `shutdown_async` is called by a thread beside the workers. The epoch is not taken modulo
-- 2 ^ 23: a shutdown calls `next_epoch` a few times for each worker.
mod Invariant
pub mod Covered
pub mod Livelock
pub mod Examples
use yaay_rs.Base.{
  ℕ, zero, suc, ◌+◌, ◌-◌, ◌*◌, ◌<◌, ◌≤◌, ◌≡◌, ◌≢◌, Bool, true, false, List, [], ◌∷◌, ◌==◌,
  if◌then◌else◌, some, get_elem?, set, length, fill,
}
use yaay_rs.Worker.Peers.{ids_from, other_workers}

-- Where a worker stands in `main_loop`, and in `Shutdown::poll`. A status is its epoch and its count of
-- active workers.
pub data Pc : Type 0 where
  draining : Pc  -- head of the `'local` loop
  turning : Pc  -- its queue was empty, and it is before `set_inactive`
  searching : (epoch active : ℕ) → Pc  -- head of the `'task` loop, with `old_status`
  reading : (epoch : ℕ) → Pc  -- before `get_status`, with the epoch of `old_status`
  comparing : (old epoch active : ℕ) → Pc  -- with the epoch of `old_status`, and `new_status`
  found : Pc  -- it has a `Shutdown` task, and is before `set_active`
  popped : Pc  -- start of `Shutdown::poll`
  spreading : (rest : List ℕ) → Pc  -- its flag is set, and `rest` is left of `other_workers`
  pushing : (target : ℕ) (rest : List ℕ) → Pc  -- the flag of `target` was not set
  announcing : Pc  -- before `next_epoch`
  polled : Pc  -- in `main_loop`, before it tests its flag
  exited : Pc

-- The thread in `shutdown_async`.
pub data Caller : Type 0 where
  calling : (rest : List ℕ) → Caller
  returned : Caller

pub record Halt : Type 0 where
  pub flags : ℕ → Bool  -- `private.shutdown` of each worker
  pub queues : ℕ → ℕ
  pub epoch : ℕ  -- the calls of `next_epoch`
  pub active : ℕ  -- the active workers, as the status word counts them
  pub workers : List Pc
  pub caller : Caller

abbrev pub raise : (ℕ → Bool) → ℕ → ℕ → Bool
raise f i j = if j == i then true else f j

abbrev pub store : (ℕ → ℕ) → ℕ → ℕ → ℕ → ℕ
store q i n j = if j == i then n else q j

abbrev pub go : Halt → ℕ → Pc → Halt
go s i p = record s { workers = set s.workers i p }

abbrev pub At : Halt → ℕ → Pc → Type 0
At s i p = get_elem? s.workers i ≡ some p

pub data HaltStep (s : Halt) : Halt → Type 0 where
  -- `main_loop`, up to a poll
  pop :
      (i : ℕ)
      → At s i draining
      → 0 < s.queues i
      → HaltStep s (record (go s i popped) { queues = store s.queues i (s.queues i - 1) })
  drained : (i : ℕ) → At s i draining → s.queues i ≡ 0 → HaltStep s (go s i turning)
  turn :
      (i : ℕ)
      → At s i turning
      → HaltStep s (record (go s i (searching s.epoch (s.active - 1))) { active = s.active - 1 })
  steal :
      (i j : ℕ) {e a : ℕ}
      → At s i (searching e a)
      → a ≢ 0
      → j ≢ i
      → 0 < s.queues j
      → HaltStep s (record (go s i found) { queues = store s.queues j (s.queues j - 1) })
  steal_none : (i : ℕ) {e a : ℕ} → At s i (searching e a) → a ≢ 0 → HaltStep s (go s i (reading e))
  pop_last :
      (i : ℕ) {e a : ℕ}
      → At s i (searching e a)
      → a ≡ 0
      → 0 < s.queues i
      → HaltStep s (record (go s i found) { queues = store s.queues i (s.queues i - 1) })
  -- `wait_next_epoch` returns, at once or after a sleep.
  wait :
      (i : ℕ) {e a : ℕ}
      → At s i (searching e a)
      → a ≡ 0
      → s.queues i ≡ 0
      → HaltStep s (go s i (reading e))
  read : (i : ℕ) {e : ℕ} → At s i (reading e) → HaltStep s (go s i (comparing e s.epoch s.active))
  pop_newer :
      (i : ℕ) {old e a : ℕ}
      → At s i (comparing old e a)
      → old < e
      → 0 < s.queues i
      → HaltStep s (record (go s i found) { queues = store s.queues i (s.queues i - 1) })
  newer_empty :
      (i : ℕ) {old e a : ℕ}
      → At s i (comparing old e a)
      → old < e
      → s.queues i ≡ 0
      → HaltStep s (go s i (searching e a))
  not_newer :
      (i : ℕ) {old e a : ℕ}
      → At s i (comparing old e a)
      → e ≤ old
      → HaltStep s (go s i (searching e a))
  -- `set_active`
  resume : (i : ℕ) → At s i found → HaltStep s (record (go s i popped) { active = s.active + 1 })
  -- `Shutdown::poll`
  store_flag :
      (i : ℕ)
      → At s i popped
      → HaltStep s (record (go s i (spreading (other_workers (length s.workers) i))) {
        flags = raise s.flags i;
      })
  skip :
      (i : ℕ) {t : ℕ} {rest : List ℕ}
      → At s i (spreading (t ∷ rest))
      → s.flags t ≡ true
      → HaltStep s (go s i (spreading rest))
  see :
      (i : ℕ) {t : ℕ} {rest : List ℕ}
      → At s i (spreading (t ∷ rest))
      → s.flags t ≡ false
      → HaltStep s (go s i (pushing t rest))
  push :
      (i : ℕ) {t : ℕ} {rest : List ℕ}
      → At s i (pushing t rest)
      → HaltStep s (record (go s i (spreading rest)) { queues = store s.queues t (s.queues t + 1) })
  spread : (i : ℕ) → At s i (spreading []) → HaltStep s (go s i announcing)
  announce :
      (i : ℕ) → At s i announcing → HaltStep s (record (go s i polled) { epoch = s.epoch + 1 })
  -- `if self.private.shutdown.load(Relaxed) { return; }`
  leave : (i : ℕ) → At s i polled → s.flags i ≡ true → HaltStep s (go s i exited)
  stay : (i : ℕ) → At s i polled → s.flags i ≡ false → HaltStep s (go s i draining)
  -- `shutdown_async`
  call :
      {t : ℕ} {rest : List ℕ}
      → s.caller ≡ calling (t ∷ rest)
      → HaltStep s (record s { queues = store s.queues t (s.queues t + 1); caller = calling rest })
  called : s.caller ≡ calling [] → HaltStep s (record s { caller = returned; epoch = s.epoch + 1 })

-- `n` workers at the start of `shutdown_async`
abbrev pub init_halt : ℕ → Halt
init_halt n = record {
  flags = λ i. false;
  queues = λ i. 0;
  epoch = 0;
  active = n;
  workers = fill draining n;
  caller = calling (ids_from 0 n);
}

pub data HaltReach (n : ℕ) : Halt → Type 0 where
  begin : HaltReach n (init_halt n)
  later : {s t : Halt} → HaltReach n s → HaltStep s t → HaltReach n t
