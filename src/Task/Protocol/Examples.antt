-- ===== src/Task/Protocol/Examples.antt =====
-- A short life of one task, and the theorems at its states.
use yaay_rs.Base.{ℕ, ◌≤◌, ◌<◌, ◌≡◌, ◌⊎◌, refl, true, [], ◌∷◌, some, get_elem?, arith}
use yaay_rs.Task.Protocol.{Pc, away, Move, System, Step, move, clone, Reach, start, later}
use yaay_rs.Task.Protocol.Safety.{
  uses_task, is_bound, polled_by_one, no_use_after_free, freed_at_the_end, wakeup_kept,
}

-- A state with the steps that lead to it.
pub record Run : Type 0 where
  pub last : System
  pub reach : Reach last

run_step : (r : Run) {t : System} → Step r.last t → Run
run_step r {t} st = record { last = t; reach = later r.reach st }

-- Thread 0 has spawned the task, thread 1 polls it, and the future has given a waker to thread 3.
abbrev pub polled : Run
polled = record {
  last = _;
  reach =
      later
        (later
          (later
            (later (start (away ∷ away ∷ []) (refl, (refl, tt)) (omega arith))
              (move 0 refl Move.spawn))
            (move 1 refl (Move.pop (omega arith))))
          (move 1 refl Move.begin))
        (clone 1 refl refl (omega arith));
}

-- The future was pending.
abbrev pub parked : Run
parked = record {
  last = _;
  reach =
      later (later polled.reach (move 1 refl Move.poll_pending))
        (move 1 refl (Move.cas_park refl refl));
}

-- Thread 3 has woken the task.
abbrev woken_again : Run
woken_again = record {
  last = _;
  reach =
      later
        (later (later parked.reach (move 3 refl Move.wake_held))
          (move 3 refl (Move.wake_schedule refl)))
        (move 3 refl Move.push);
}

-- Thread 2 has polled it to the end, and thread 3 has dropped its waker.
abbrev finished : Run
finished = record {
  last = _;
  reach =
      later
        (later
          (later
            (later
              (later
                (later
                  (later
                    (later (later woken_again.reach (move 2 refl (Move.pop (omega arith))))
                      (move 2 refl Move.begin))
                    (move 2 refl Move.poll_ready))
                  (move 2 refl Move.mark))
                (move 2 refl Move.drop_future))
              (move 2 refl Move.dec))
            (move 3 refl Move.drop_waker))
          (move 3 refl Move.dec))
        (move 3 refl Move.free);
}

polled_by_one_example : ◌≡◌ {A = ℕ} 1 1
polled_by_one_example = polled_by_one polled.reach 1 1 refl refl refl refl

no_use_after_free_example :
    (parked.last.mem.frees ≤ 1)
    × ((i : ℕ) (p : Pc)
        → get_elem? parked.last.threads i ≡ some p
        → uses_task p ≡ true
        → parked.last.mem.frees ≡ 0)
    × (0 < parked.last.mem.queued → parked.last.mem.frees ≡ 0)
no_use_after_free_example = no_use_after_free parked.reach

freed_at_the_end_example : (finished.last.mem.drops ≡ 1) × (finished.last.mem.frees ≡ 1)
freed_at_the_end_example = freed_at_the_end finished.reach refl (refl, (refl, (refl, (refl, tt))))

wakeup_kept_example :
    (woken_again.last.mem.status.notified ≡ true)
    × ((0 < woken_again.last.mem.queued)
        ⊎ ((i : ℕ) × (p : Pc) × (get_elem? woken_again.last.threads i ≡ some p)
            × (is_bound p ≡ true)))
wakeup_kept_example = wakeup_kept woken_again.reach refl refl
