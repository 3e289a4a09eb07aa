-- ===== src/Task/Contract.antt =====
-- What a task promises to those who wake it and to the workers (the comments of `Task::wake` and
-- `Task::poll` in yaay-mt-runtime/src/task.rs), as a state machine without threads, queues or bits.
pub mod Simulation
pub mod Examples
use yaay_rs.Base.{◌≡◌, Bool, true, false}

pub data Phase : Type 0 where
  sleeping : Phase  -- not to be polled until it is woken
  runnable : Phase  -- a worker will poll it
  running : Phase  -- its future is being polled, once or again
  finished : Phase  -- its future is dropped, or will be, and is never polled again

-- `wanted` says that the task was woken since its future was last called.
pub record Contract : Type 0 where
  pub phase : Phase
  pub wanted : Bool

abbrev pub contract : Phase → Bool → Contract
contract p w = record { phase = p; wanted = w }

abbrev pub wake_phase : Phase → Phase
wake_phase sleeping = runnable
wake_phase p = p

pub data ContractStep : Contract → Contract → Type 0 where
  -- Several wakes before a poll count as one.
  wake : {p : Phase} {w : Bool} → ContractStep (contract p w) (contract (wake_phase p) true)
  -- What comes after the start of a poll asks for another one.
  poll : {w : Bool} → ContractStep (contract runnable w) (contract running false)
  -- A poll that is pending is repeated if the task was woken meanwhile, and else the task sleeps.
  sleep : ContractStep (contract running false) (contract sleeping false)
  repeat : ContractStep (contract running true) (contract running false)
  -- The future is ready, or the runtime ends.
  finish : {w : Bool} → ContractStep (contract running w) (contract finished w)
  discard : {w : Bool} → ContractStep (contract runnable w) (contract finished w)

pub data ContractReach : Contract → Type 0 where
  spawned : ContractReach (contract runnable true)
  later : {c d : Contract} → ContractReach c → ContractStep c d → ContractReach d
