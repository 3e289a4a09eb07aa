-- ===== src/Scheduler/Liveness.antt =====
-- No worker sleeps while its queue has a task that nobody is about to announce.
use yaay_rs.Base.{
  ℕ, zero, suc, ◌%◌, ◌^◌, ◌≤◌, ◌<◌, ◌≡◌, ◌≢◌, ◌⊎◌, refl, List, [], ◌∷◌, some, get_elem?, length,
  total, total-complement, arith,
}
use yaay_rs.Epoch.Defs.{active_count, epoch}
use yaay_rs.Epoch.Fields.{active_count-mod, epoch-div}
use yaay_rs.Scheduler.Machine.{Mem, Pc, parked, searching, System, Reach}
use yaay_rs.Scheduler.Facts.{Sleeps, Fact}
use yaay_rs.Scheduler.Invariant.{active, idle, alarm, alarms, Reach-Inv, active-or_idle}

-- The state of a worker that sleeps.
abbrev pub IsParked : Pc → Type 0
IsParked (parked _ _ _ _) = Unit
IsParked _ = ⊥

abbrev pub AllParked : List Pc → Type 0
AllParked [] = Unit
AllParked (p ∷ ps) = IsParked p × AllParked ps

Sleeps-parked : (n : ℕ) (m : Mem) (b w : ℕ) (p : Pc) → IsParked p → Fact n m b w p → Sleeps m b w
Sleeps-parked n m b w (parked _ _ _ _) sleeping f = f
Sleeps-parked n m b w _ sleeping f = elim sleeping [ ]

IsParked-get :
    (ws : List Pc) (w : ℕ)
    → AllParked ws
    → w < length ws
    → (p : Pc) × (get_elem? ws w ≡ some p) × IsParked p
IsParked-get [] w all lt = absurd (omega arith)
IsParked-get (p ∷ ws) zero all lt = (p, refl, all.0)
IsParked-get (p ∷ ws) (suc w) all lt = IsParked-get ws w all.1 (omega arith)

alarm-parked : (p : Pc) → IsParked p → alarm p ≡ 0
alarm-parked (parked _ _ _ _) sleeping = refl
alarm-parked _ sleeping = elim sleeping [ ]

total-alarm_parked : (ws : List Pc) → AllParked ws → total alarm ws ≡ 0
unfolding total
total-alarm_parked [] all = refl
total-alarm_parked (p ∷ ws) all = omega (arith, alarm-parked p all.0, total-alarm_parked ws all.1)

-- Fewer than 2 ^ 9 workers, and less than 2 ^ 23 ticks in MAX_DURATION.
module _ {n max : ℕ} (few : n < 512) (short : max < 2 ^ 23) {s : System} (r : Reach n max s) where
  -- The low bits of the status word count the active workers, and its high bits the calls of
  -- `next_epoch`, modulo 2 ^ 23.
  pub status_counts :
      (active_count s.mem.status ≡ total active s.workers)
      × (epoch s.mem.status ≡ s.mem.ticks % 2 ^ 23)
  status_counts =
      let v = Reach-Inv few short r in
      (
        omega (
          arith,
          v.word,
          v.sized,
          active_count-mod s.mem.status,
          total-complement active idle s.workers active-or_idle,
        ),
        omega (
          arith,
          v.word,
          v.sized,
          epoch-div s.mem.status,
          total-complement active idle s.workers active-or_idle,
        ),
      )

  -- While a worker sleeps and its own queue has a task, some thread that has pushed tasks is still to
  -- call `next_epoch`, or some thread is about to wake all sleepers.
  pub sleeper-covered :
      (w : ℕ) {p : Pc}
      → get_elem? s.workers w ≡ some p
      → IsParked p
      → 0 < s.mem.queue w
      → (0 < s.mem.pushers) ⊎ (0 < alarms s.mem s.workers)
  sleeper-covered w {p} at sleeping =
      (Sleeps-parked n s.mem _ w p sleeping ((Reach-Inv few short r).facts w p at)).covered

  -- While a worker sleeps and the active count is not 0, as it is once a worker has exited, some
  -- thread is about to wake all sleepers.
  pub sleeper-woken :
      (w : ℕ) {p : Pc}
      → get_elem? s.workers w ≡ some p
      → IsParked p
      → active_count s.mem.status ≢ 0
      → 0 < alarms s.mem s.workers
  sleeper-woken w {p} at sleeping busy =
      let asleep = Sleeps-parked n s.mem _ w p sleeping ((Reach-Inv few short r).facts w p at) in
      ground (arith, asleep.quiet, active_count-mod s.mem.status)

  -- No deadlock: when all workers sleep, and no thread is between its push and the end of its
  -- `next_epoch`, every local queue is empty.
  pub no_deadlock :
      AllParked s.workers
      → s.mem.pushers ≡ 0
      → s.mem.wakers ≡ 0
      → (w : ℕ) → w < n
      → s.mem.queue w ≡ 0
  no_deadlock all settled silent w lt =
      let v = Reach-Inv few short r in
      let (p, at, sleeping) = IsParked-get s.workers w all (omega (arith, v.sized)) in
      ground (arith, sleeper-covered w at sleeping, total-alarm_parked s.workers all)

  -- A worker that turns to stealing is not alone, so `n_workers - 1` in `try_steal` is not 0.
  pub steal-not_alone :
      (w : ℕ) {old t k x : ℕ}
      → get_elem? s.workers w ≡ some (searching old t k x)
      → active_count old ≢ 0
      → 2 ≤ n
  steal-not_alone w {old} at busy =
      omega (arith, ((Reach-Inv few short r).facts w _ at).1.active_read, active_count-mod old)
