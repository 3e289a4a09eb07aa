-- ===== src/ConcurrentWakeup.antt =====
-- The program yaay-tests/src/concurrent_wakeup.rs: threads wake one task again and again, and count
-- themselves down; the task runs until the count is 0. The task is what Task/Contract promises.
pub mod Halt
pub mod Hang
pub mod Safety
pub mod Examples
use yaay_rs.Base.{ℕ, zero, suc, ◌+◌, ◌-◌, ◌%◌, ◌^◌, ◌≡◌, ◌≢◌, Bool, true, false, List, [], ◌∷◌}
use yaay_rs.Task.Contract.{
  Contract, contract, running, ContractStep, runnable, sleeping, finished, wake_phase,
}

-- A thread of `Dummy::poll`, with the calls of `wake_by_ref` that are left.
pub data Waker : Type 0 where
  waking : (left : ℕ) → Waker
  ended : Waker

-- Where `Test::poll` stands, in the order of its statements.
pub data Pc : Type 0 where
  outside : Pc  -- not in `Test::poll`
  entered : Pc  -- before `assert!(BOOL..)`
  asserted : Pc
  cleared : Pc  -- after `BOOL.store(false)`
  asserted_clear : Pc
  restored : Pc  -- after `BOOL.store(true)`
  pending : Pc  -- it has returned `Poll::Pending`

pub record Program : Type 0 where
  pub task : Contract
  pub pc : Pc
  pub flag : Bool  -- BOOL
  pub n : ℕ  -- N, an AtomicU32
  pub wakers : List Waker
  pub panicked : Bool  -- an assertion has failed

-- One thread wakes the task once more.
pub data Wakes : List Waker → List Waker → Type 0 where
  here : {k : ℕ} {ws : List Waker} → Wakes (waking (suc k) ∷ ws) (waking k ∷ ws)
  there : {w : Waker} {ws us : List Waker} → Wakes ws us → Wakes (w ∷ ws) (w ∷ us)

-- One thread has no wakes left, and ends after `N.fetch_sub(1)`.
pub data Counts : List Waker → List Waker → Type 0 where
  here : {ws : List Waker} → Counts (waking zero ∷ ws) (ended ∷ ws)
  there : {w : Waker} {ws us : List Waker} → Counts ws us → Counts (w ∷ ws) (w ∷ us)

pub data ProgramStep (s : Program) : Program → Type 0 where
  -- the threads
  wake :
      {us : List Waker}
      → Wakes s.wakers us
      → ProgramStep s (record s { wakers = us; task = contract (wake_phase s.task.phase) true })
  count :
      {us : List Waker}
      → Counts s.wakers us
      → ProgramStep s (record s { wakers = us; n = (s.n + 2 ^ 32 - 1) % 2 ^ 32 })
  -- the worker that polls the task
  poll :
      s.task.phase ≡ runnable
      → ProgramStep s (record s { task = contract running false; pc = entered })
  -- `Test::poll`
  assert_true : s.pc ≡ entered → s.flag ≡ true → ProgramStep s (record s { pc = asserted })
  fail_true : s.pc ≡ entered → s.flag ≡ false → ProgramStep s (record s { panicked = true })
  store_false : s.pc ≡ asserted → ProgramStep s (record s { pc = cleared; flag = false })
  assert_false : s.pc ≡ cleared → s.flag ≡ false → ProgramStep s (record s { pc = asserted_clear })
  fail_false : s.pc ≡ cleared → s.flag ≡ true → ProgramStep s (record s { panicked = true })
  store_true : s.pc ≡ asserted_clear → ProgramStep s (record s { pc = restored; flag = true })
  load_zero :
      s.pc ≡ restored
      → s.n ≡ 0
      → ProgramStep s (record s { pc = outside; task = contract finished s.task.wanted })
  load_more : s.pc ≡ restored → s.n ≢ 0 → ProgramStep s (record s { pc = pending })
  -- the end of the poll
  sleep :
      s.pc ≡ pending
      → s.task.wanted ≡ false
      → ProgramStep s (record s { pc = outside; task = contract sleeping false })
  repeat :
      s.pc ≡ pending
      → s.task.wanted ≡ true
      → ProgramStep s (record s { pc = entered; task = contract running false })

abbrev pub wakers_of : ℕ → ℕ → List Waker
wakers_of zero k = []
wakers_of (suc m) k = waking k ∷ wakers_of m k

-- `Dummy::poll` has spawned `m` threads of `k` wakes each, and the same poll enters `Test::poll`. A step
-- that a thread takes before that is as if it took it then, and no thread has taken one yet. The program
-- has 4 threads of 100000000 wakes.
abbrev pub init_program : ℕ → ℕ → Program
init_program m k = record {
  task = contract running false;
  pc = entered;
  flag = true;
  n = m;
  wakers = wakers_of m k;
  panicked = false;
}

pub data ProgramReach (m k : ℕ) : Program → Type 0 where
  start : ProgramReach m k (init_program m k)
  later : {s t : Program} → ProgramReach m k s → ProgramStep s t → ProgramReach m k t
