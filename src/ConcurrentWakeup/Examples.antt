-- ===== src/ConcurrentWakeup/Examples.antt =====
-- The first steps of the program, and a run with two threads that hangs.
use yaay_rs.Base.{◌≡◌, refl, false, arith}
use yaay_rs.Task.Contract.{sleeping}
use yaay_rs.Task.Contract.Simulation.{Keeps}
use yaay_rs.ConcurrentWakeup.{asserted, Program, ProgramStep, init_program, ProgramReach, start}
use yaay_rs.ConcurrentWakeup.Safety.{alive, program-Keeps}
use yaay_rs.ConcurrentWakeup.Halt.{Stuck, Halted, program-halts}
use yaay_rs.ConcurrentWakeup.Hang.{program-hangs}

abbrev begun : Program
begun = init_program 4 100000000

abbrev tested : Program
tested = record begun { pc = asserted }

program-Keeps_example : (tested.panicked ≡ false) × Keeps begun.task tested.task
program-Keeps_example =
    program-Keeps {m = 4} {k = 100000000} {s = begun} (omega arith) start
      (ProgramStep.assert_true refl refl)

program-hangs_example :
    (s : Program) × ProgramReach 4 100000000 s
    × Stuck s
    × (s.task.phase ≡ sleeping)
    × (s.n ≡ 0)
    × (alive s.wakers ≡ 0)
program-hangs_example = program-hangs 4 100000000 (omega arith) (omega arith)

hung :
    (s : Program) × ProgramReach 2 1 s
    × Stuck s
    × (s.task.phase ≡ sleeping)
    × (s.n ≡ 0)
    × (alive s.wakers ≡ 0)
hung = program-hangs 2 1 (omega arith) (omega arith)

program-halts_example : (alive hung.0.wakers ≡ 0) × (hung.0.n ≡ 0) × Halted hung.0
program-halts_example = program-halts {m = 2} {k = 1} (omega arith) hung.1 hung.2
