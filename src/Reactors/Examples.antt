-- ===== src/Reactors/Examples.antt =====
-- The start of one reactor thread, to its end.
use yaay_rs.Base.{ℕ, ◌≡◌, ◌≢◌, inr, refl, arith}
use yaay_rs.Reactors.{Thread, running, looking, made, Boot, At, BootStep, BootReach, begin, later}
use yaay_rs.Reactors.Safety.{boot-no_deadlock}

record Run : Type 0 where
  last : Boot
  reach : BootReach 1 last

-- The thread that builds it looks first, and is woken.
abbrev booted : Run
booted = record {
  last = _;
  reach =
      later
        (later (later (later begin (BootStep.look_main refl)) (BootStep.store 0 refl))
          (BootStep.notify 0 refl))
        (BootStep.look_main refl);
}

made-ne_looking : made ≢ looking
made-ne_looking e = ground arith

boot-no_deadlock_example :
    (booted.last.main ≡ made) × ((i : ℕ) (p : Thread) → At booted.last i p → p ≡ running)
boot-no_deadlock_example = boot-no_deadlock booted.reach (inr refl, tt) made-ne_looking
