-- ===== src/Shutdown/Examples.antt =====
-- The two workers of the run in Livelock, at its end.
use yaay_rs.Base.{ℕ, zero, suc, ◌<◌, ◌≡◌, ◌⊎◌, refl, true, false, arith}
use yaay_rs.Worker.Peers.{ids_from, others_from, other_workers}
use yaay_rs.Shutdown.{Pc, At}
use yaay_rs.Shutdown.Livelock.{locked}
use yaay_rs.Shutdown.Covered.{is_busy, shutdown-covered}

locked-idle : (j : ℕ) (p : Pc) → At locked.last j p → is_busy p ≡ false
unfolding other_workers others_from ids_from
locked-idle zero p at = ground arith
locked-idle (suc zero) p at = ground arith
locked-idle (suc (suc j)) p at = absurd (ground arith)

shutdown-covered_example : (locked.last.flags 1 ≡ true) ⊎ (0 < locked.last.queues 1)
unfolding other_workers others_from ids_from
shutdown-covered_example = shutdown-covered locked.reach refl locked-idle 1 (omega arith)
