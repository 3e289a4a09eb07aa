-- ===== src/ConcurrentWakeup/Safety.antt =====
-- What every interleaving of the program keeps.
use yaay_rs.Base.{
  ℕ, zero, suc, ◌+◌, ◌^◌, ◌<◌, ◌≡◌, inl, refl, Bool, true, false, List, [], ◌∷◌, arith,
}
use yaay_rs.Task.Contract.{
  Phase, sleeping, runnable, running, finished, contract, ContractStep, wake_phase,
}
use yaay_rs.Task.Contract.Simulation.{Keeps, Keeps-by}
use yaay_rs.ConcurrentWakeup.{
  Waker, waking, ended, Pc, outside, cleared, asserted_clear, Program, Wakes, Counts, ProgramStep,
  wakers_of, ProgramReach, start, later,
}

-- How many threads have not ended.
abbrev pub alive : List Waker → ℕ
alive [] = 0
alive (ended ∷ ws) = alive ws
alive (waking k ∷ ws) = 1 + alive ws

-- BOOL between the two stores
abbrev pub is_set : Pc → Bool
is_set cleared = false
is_set asserted_clear = false
is_set _ = true

abbrev pub in_poll : Pc → Bool
in_poll outside = false
in_poll _ = true

abbrev pub is_running : Phase → Bool
is_running running = true
is_running _ = false

pub record Inv (s : Program) : Type 0 where
  pub unpanicked : s.panicked ≡ false
  pub flagged : s.flag ≡ is_set s.pc
  pub polled : is_running s.task.phase ≡ in_poll s.pc
  pub counted : s.n ≡ alive s.wakers
  pub small : s.n < 2 ^ 32
  pub quiet : s.task.phase ≡ sleeping → s.task.wanted ≡ false

Wakes-alive : {ws us : List Waker} → Wakes ws us → alive us ≡ alive ws
Wakes-alive Wakes.here = refl
Wakes-alive (Wakes.there {w = waking k} w) = omega (arith, Wakes-alive w)
Wakes-alive (Wakes.there {w = ended} w) = Wakes-alive w

Counts-alive : {ws us : List Waker} → Counts ws us → alive us + 1 ≡ alive ws
Counts-alive Counts.here = omega arith
Counts-alive (Counts.there {w = waking k} w) = omega (arith, Counts-alive w)
Counts-alive (Counts.there {w = ended} w) = Counts-alive w

Step-Inv : {s t : Program} → ProgramStep s t → Inv s → Inv t
Step-Inv (ProgramStep.wake w) v = ground (arith, v, Wakes-alive w)
Step-Inv (ProgramStep.count w) v = ground (arith, v, Counts-alive w)
Step-Inv (ProgramStep.poll e) v = ground (arith, v)
Step-Inv (ProgramStep.assert_true e f) v = ground (arith, v)
Step-Inv (ProgramStep.fail_true e f) v = ground (arith, v)
Step-Inv (ProgramStep.store_false e) v = ground (arith, v)
Step-Inv (ProgramStep.assert_false e f) v = ground (arith, v)
Step-Inv (ProgramStep.fail_false e f) v = ground (arith, v)
Step-Inv (ProgramStep.store_true e) v = ground (arith, v)
Step-Inv (ProgramStep.load_zero e f) v = ground (arith, v)
Step-Inv (ProgramStep.load_more e f) v = ground (arith, v)
Step-Inv (ProgramStep.sleep e f) v = ground (arith, v)
Step-Inv (ProgramStep.repeat e f) v = ground (arith, v)

alive-wakers_of : (m k : ℕ) → alive (wakers_of m k) ≡ m
alive-wakers_of zero k = refl
alive-wakers_of (suc m) k = omega (arith, alive-wakers_of m k)

pub Reach-Inv : {m k : ℕ} {s : Program} → m < 2 ^ 32 → ProgramReach m k s → Inv s
Reach-Inv {m} {k} small start = ground (arith, alive-wakers_of m k)
Reach-Inv small (later r st) = Step-Inv st (Reach-Inv small r)

ProgramStep-Keeps : {s t : Program} → ProgramStep s t → Inv s → Keeps s.task t.task
ProgramStep-Keeps {s} (ProgramStep.wake w) v =
    Keeps-by s.task (contract (wake_phase s.task.phase) true) refl refl ContractStep.wake
ProgramStep-Keeps {s} (ProgramStep.poll e) v =
    Keeps-by (contract runnable s.task.wanted) (contract running false) (ground arith) refl
      ContractStep.poll
ProgramStep-Keeps {s} (ProgramStep.load_zero e f) v =
    Keeps-by (contract running s.task.wanted) (contract finished s.task.wanted) (ground (arith, v))
      refl ContractStep.finish
ProgramStep-Keeps (ProgramStep.sleep e f) v =
    Keeps-by (contract running false) (contract sleeping false) (ground (arith, v)) refl
      ContractStep.sleep
ProgramStep-Keeps (ProgramStep.repeat e f) v =
    Keeps-by (contract running true) (contract running false) (ground (arith, v)) refl
      ContractStep.repeat
ProgramStep-Keeps (ProgramStep.count w) v = inl refl
ProgramStep-Keeps (ProgramStep.assert_true e f) v = inl refl
ProgramStep-Keeps (ProgramStep.fail_true e f) v = inl refl
ProgramStep-Keeps (ProgramStep.store_false e) v = inl refl
ProgramStep-Keeps (ProgramStep.assert_false e f) v = inl refl
ProgramStep-Keeps (ProgramStep.fail_false e f) v = inl refl
ProgramStep-Keeps (ProgramStep.store_true e) v = inl refl
ProgramStep-Keeps (ProgramStep.load_more e f) v = inl refl

-- With fewer than 2 ^ 32 threads, the assertions of the test never fail, since the contract lets one
-- thread poll the task at a time, and what the program does to the task is what the contract allows.
pub program-Keeps :
    {m k : ℕ} {s t : Program}
    → m < 2 ^ 32
    → ProgramReach m k s
    → ProgramStep s t
    → (t.panicked ≡ false) × Keeps s.task t.task
program-Keeps small r st =
    ((Reach-Inv small (later r st)).unpanicked, ProgramStep-Keeps st (Reach-Inv small r))
