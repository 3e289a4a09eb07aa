-- ===== src/PingPong/Examples.antt =====
-- One pair that plays one round.
use yaay_rs.Base.{ℕ, ◌<◌, ◌≡◌, refl, true, arith}
use yaay_rs.PingPong.{Pair, done, Game, At, PairStep, GameStep, GameReach, start, later}
use yaay_rs.PingPong.Ends.{Stuck, game-no_deadlock, steps_left, game-steps_left}

record Run : Type 0 where
  last : Game
  reach : GameReach 1 1 last

abbrev accepted_run : Run
accepted_run = record {
  last = _;
  reach =
      later
        (later
          (later (later start (GameStep.spawn 0 refl refl refl refl)) (GameStep.listen refl refl))
          (GameStep.play 0 refl refl (PairStep.connect refl)))
        (GameStep.accept 0 refl refl refl refl refl);
}

abbrev sent_run : Run
sent_run = record {
  last = _;
  reach = later accepted_run.reach (GameStep.play 0 refl refl (PairStep.send refl));
}

abbrev answered_run : Run
answered_run = record {
  last = _;
  reach =
      later
        (later (later sent_run.reach (GameStep.play 0 refl refl (PairStep.take refl refl)))
          (GameStep.play 0 refl refl (PairStep.answer refl)))
        (GameStep.play 0 refl refl (PairStep.receive refl refl));
}

abbrev ended_run : Run
ended_run = record {
  last = _;
  reach =
      later (later answered_run.reach (GameStep.play 0 refl refl (PairStep.stop refl)))
        (GameStep.count_up 0 refl refl refl);
}

game-no_deadlock_example :
    (Stuck 1 1 ended_run.last → ended_run.last.exited ≡ true)
    × (ended_run.last.exited ≡ true → (i : ℕ) (p : Pair) → At ended_run.last i p → p.ping ≡ done)
game-no_deadlock_example = game-no_deadlock (omega arith, omega arith) ended_run.reach

game-steps_left_example : steps_left 1 1 sent_run.last < steps_left 1 1 accepted_run.last
game-steps_left_example =
    game-steps_left {n = 1} {r = 1} {s = accepted_run.last}
      (GameStep.play 0 refl refl (PairStep.send refl))
