-- ===== src/Startup/Examples.antt =====
-- One builder from start to end, and the theorems on the way.
use yaay_rs.Base.{ℕ, ◌≡◌, ◌≢◌, inr, refl, arith}
use yaay_rs.Startup.{Builder, built, checking, done, Site, At, SiteStep, SiteReach, begin, later}
use yaay_rs.Startup.Safety.{start-no_deadlock}

record Run : Type 0 where
  last : Site
  reach : SiteReach 1 last

-- The pointer is stored, and the builder goes on.
abbrev stored_one : Run
stored_one = record {
  last = _;
  reach = later (later begin (SiteStep.store 0 refl)) (SiteStep.notify_ptrs 0 refl);
}

-- The main thread has slept until the end of `build`.
abbrev built_one : Run
built_one = record {
  last = _;
  reach =
      later
        (later
          (later (later stored_one.reach (SiteStep.waiter_wait refl refl)) (SiteStep.count 0 refl))
          (SiteStep.notify_built 0 refl))
        (SiteStep.waiter_pass refl refl);
}

done-ne_checking : done ≢ checking
done-ne_checking e = ground arith

start-no_deadlock_example :
    (built_one.last.waiter ≡ done) × ((i : ℕ) (p : Builder) → At built_one.last i p → p ≡ built)
start-no_deadlock_example = start-no_deadlock built_one.reach (inr (inr refl), tt) done-ne_checking
