-- ===== src/Reactors/Quit/Examples.antt =====
-- One reactor thread that is in a round when SHUTDOWN is set, to its end.
use yaay_rs.Base.{ℕ, ◌<◌, ◌≡◌, ◌≢◌, refl, true}
use yaay_rs.Reactors.Quit.{setting, returned, ended, Quit, At, QuitStep, QuitReach, start, later}
use yaay_rs.Reactors.Quit.Ends.{Stuck, quit-ends, steps_left}

record Run : Type 0 where
  last : Quit
  reach : QuitReach 1 last

abbrev set_in_round : Run
set_in_round = record {
  last = _;
  reach = later (later start (QuitStep.test_clear 0 refl refl)) (QuitStep.store refl);
}

abbrev served : Run
served = record { last = _; reach = later set_in_round.reach (QuitStep.serve 0 refl) }

abbrev quitted : Run
quitted = record {
  last = _;
  reach =
      later
        (later (later (later served.reach (QuitStep.test_set 0 refl refl)) (QuitStep.leave 0 refl))
          (QuitStep.join refl refl))
        (QuitStep.finish refl refl);
}

quit-ends_example :
    (Stuck quitted.last → quitted.last.quitter ≡ returned)
    × (quitted.last.quitter ≡ returned
        → (quitted.last.flag ≡ true) × ((i : ℕ) → i < 1 → At quitted.last i ended))
    × (quitted.last.quitter ≢ setting
        → (t : Quit) → QuitStep quitted.last t
        → steps_left t < steps_left quitted.last)
quit-ends_example = quit-ends quitted.reach
