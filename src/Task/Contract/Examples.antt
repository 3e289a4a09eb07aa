-- ===== src/Task/Contract/Examples.antt =====
-- The parked task of Task/Protocol/Examples is woken by thread 3.
use yaay_rs.Base.{total, ◌≡◌, refl, true, false}
use yaay_rs.Task.Protocol.{Move, System, Step, move}
use yaay_rs.Task.Protocol.Examples.{parked}
use yaay_rs.Task.Contract.{contract, sleeping, runnable}
use yaay_rs.Task.Contract.Simulation.{Keeps, contract_of, Step-Keeps}

record Moved : Type 0 where
  after : System
  step : Step parked.last after

abbrev woken : Moved
woken = record { after = _; step = move 3 refl Move.wake_held }

sleeping_before : contract_of parked.last ≡ contract sleeping false
sleeping_before = refl

runnable_after : contract_of woken.after ≡ contract runnable true
unfolding total
runnable_after = refl

Step-Keeps_example : Keeps (contract_of parked.last) (contract_of woken.after)
Step-Keeps_example = Step-Keeps parked.reach woken.step
