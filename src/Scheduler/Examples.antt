-- ===== src/Scheduler/Examples.antt =====
-- Two workers that go to sleep, a task that is pushed to one of them, and the theorems there.

use yaay_rs.Base.{ℕ, ◌<◌, ◌≡◌, ◌≢◌, ◌⊎◌, refl, false, [], ◌∷◌, arith}
use yaay_rs.Epoch.Defs.{active_count, epoch, set_active, set_inactive, validate}
use yaay_rs.Scheduler.Machine.{draining, Move, System, work, first_push, Reach, start, later}
use yaay_rs.Scheduler.Invariant.{alarms}
use yaay_rs.Scheduler.Liveness.{sleeper-covered, no_deadlock}

record Run : Type 0 where
  last : System
  reach : Reach 2 1000 last

-- Both workers have found their queues empty; worker 0 still counts worker 1 as active.
abbrev turning : Run
unfolding set_inactive
turning = record {
  last = _;
  reach =
      later
        (later
          (later (start (draining ∷ draining ∷ []) (refl, (refl, tt)) refl)
            (work 0 refl (Move.drained refl)))
          (work 0 refl Move.get_instant))
        (work 0 refl Move.stop);
}

-- Worker 1 has gone to sleep.
abbrev one_asleep : Run
unfolding set_inactive active_count validate
one_asleep = record {
  last = _;
  reach =
      later
        (later
          (later
            (later
              (later (later turning.reach (work 1 refl (Move.drained refl)))
                (work 1 refl Move.get_instant))
              (work 1 refl Move.stop))
            (work 1 refl (Move.check refl refl)))
          (work 1 refl (Move.unchanged refl)))
        (work 1 refl (Move.park false refl));
}

one-ne_zero : ◌≢◌ {A = ℕ} 1 0
one-ne_zero = omega arith

-- Worker 0 has looked again, and finds that no worker is active.
abbrev last_look : Run
unfolding set_inactive active_count validate epoch
last_look = record {
  last = _;
  reach =
      later
        (later
          (later (later one_asleep.reach (work 0 refl (Move.steal_none one-ne_zero)))
            (work 0 refl Move.renew))
          (work 0 refl Move.get_status))
        (work 0 refl (Move.not_newer (omega arith)));
}

-- A task has been pushed to its queue, and it has become active again.
abbrev active_again : Run
unfolding set_inactive set_active active_count validate epoch
active_again = record {
  last = _;
  reach =
      later
        (later (later last_look.reach (first_push 0))
          (work 0 refl (Move.pop_last refl (omega arith))))
        (work 0 refl Move.resume);
}

-- Worker 0 has found its queue empty and sleeps too.
abbrev both_asleep : Run
unfolding set_inactive active_count validate epoch
both_asleep = record {
  last = _;
  reach =
      later
        (later (later last_look.reach (work 0 refl (Move.check refl refl)))
          (work 0 refl (Move.unchanged refl)))
        (work 0 refl (Move.park false refl));
}

-- A task has been pushed to the queue of worker 1.
abbrev pushed : Run
unfolding set_inactive active_count validate epoch
pushed = record { last = _; reach = later both_asleep.reach (first_push 1) }

sleeper-covered_example :
    (0 < pushed.last.mem.pushers) ⊎ (0 < alarms pushed.last.mem pushed.last.workers)
unfolding set_inactive active_count validate epoch
sleeper-covered_example =
    sleeper-covered (omega arith) (omega arith) pushed.reach 1 refl tt (omega arith)

no_deadlock_example : both_asleep.last.mem.queue 1 ≡ 0
unfolding set_inactive active_count validate epoch
no_deadlock_example =
    no_deadlock (omega arith) (omega arith) both_asleep.reach (tt, (tt, tt)) refl refl 1
      (omega arith)
