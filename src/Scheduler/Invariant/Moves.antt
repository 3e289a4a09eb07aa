-- ===== src/Scheduler/Invariant/Moves.antt =====
-- What a move of worker `w` does to the word, to its own facts and to those of the others.
use yaay_rs.Base.{ℕ, ◌+◌, ◌*◌, ◌%◌, ◌^◌, ◌≤◌, ◌<◌, ◌≡◌, ◌≢◌, arith, List, total}
use yaay_rs.Epoch.Defs.{set_active, set_inactive, validate}
use yaay_rs.Epoch.Fields.{active_count-mod}
use yaay_rs.Scheduler.Machine.{Mem, Pc, draining, timing, stopping, waking, polling, exited, Move}
use yaay_rs.Scheduler.Facts.{Fact, Grows}

-- Counted in the status word.
abbrev pub active : Pc → ℕ
active draining = 1
active timing = 1
active (stopping _ _) = 1
active waking = 1
active polling = 1
active exited = 1
active _ = 0

-- Not counted.
abbrev pub idle : Pc → ℕ
idle draining = 0
idle timing = 0
idle (stopping _ _) = 0
idle waking = 0
idle polling = 0
idle exited = 0
idle _ = 1

-- About to wake the sleepers.
abbrev pub alarm : Pc → ℕ
alarm waking = 1
alarm _ = 0

-- The sums before and after a worker goes from `p` to `q`.
pub record Sums (n : ℕ) (ts us : List Pc) (p q : Pc) : Type 0 where
  pub actives : total active us + active p ≡ total active ts + active q
  pub alarms : total alarm us + alarm p ≡ total alarm ts + alarm q
  pub own_active : active p ≤ total active ts
  pub own_idle : idle p ≤ total idle ts
  pub before : total active ts + total idle ts ≡ n
  pub after : total active us ≤ n

-- The word counts.
abbrev pub Word : Mem → List Pc → Type 0
Word m ts = m.status ≡ (m.ticks % 2 ^ 23) * 512 + total active ts

module _ {n max : ℕ} {m : Mem} {ts us : List Pc} (w : ℕ) (few : n < 512) (word : Word m ts) where
  pub Move-Word : {p q : Pc} {m' : Mem} → Move n max m w p m' q → Sums n ts us p q → Word m' us
  unfolding set_active set_inactive
  Move-Word (Move.pop_local e) s = omega (arith, active_count-mod m.status)
  Move-Word (Move.drained e) s = omega (arith, active_count-mod m.status)
  Move-Word Move.get_instant s = omega (arith, active_count-mod m.status)
  Move-Word Move.stop s = omega (arith, active_count-mod m.status)
  Move-Word (Move.steal victim some lt ne_w e) s = omega (arith, active_count-mod m.status)
  Move-Word (Move.steal_none a) s = omega (arith, active_count-mod m.status)
  Move-Word (Move.pop_last a c) s = omega (arith, active_count-mod m.status)
  Move-Word (Move.check a c) s = omega (arith, active_count-mod m.status)
  Move-Word (Move.changed a) s = omega (arith, active_count-mod m.status)
  Move-Word (Move.unchanged a) s = omega (arith, active_count-mod m.status)
  Move-Word (Move.refuse x a) s = omega (arith, active_count-mod m.status)
  Move-Word (Move.park x a) s = omega (arith, active_count-mod m.status)
  Move-Word Move.renew s = omega (arith, active_count-mod m.status)
  Move-Word Move.get_status s = omega (arith, active_count-mod m.status)
  Move-Word (Move.pop_newer a c) s = omega (arith, active_count-mod m.status)
  Move-Word (Move.newer_empty a c) s = omega (arith, active_count-mod m.status)
  Move-Word (Move.not_newer a) s = omega (arith, active_count-mod m.status)
  Move-Word Move.resume s = ground (arith, active_count-mod m.status)
  Move-Word Move.push_own s = omega (arith, active_count-mod m.status)
  Move-Word Move.polled s = omega (arith, active_count-mod m.status)
  Move-Word Move.exit s = omega (arith, active_count-mod m.status)

  pub Move-Fact :
      {p q : Pc} {m' : Mem} (b b' : ℕ)
      → max < 2 ^ 23
      → Move n max m w p m' q
      → Sums n ts us p q
      → Fact n m b w p
      → Fact n m' b' w q
  unfolding set_inactive validate
  Move-Fact b b' short (Move.pop_local e) s f = tt
  Move-Fact b b' short (Move.drained e) s f = tt
  Move-Fact b b' short Move.get_instant s f = ground (arith, active_count-mod m.status)
  Move-Fact b b' short Move.stop s f = ground (arith, active_count-mod m.status)
  Move-Fact b b' short (Move.steal victim some lt ne_w e) s f = tt
  Move-Fact b b' short (Move.steal_none a) s f = tt
  Move-Fact b b' short (Move.pop_last a c) s f = tt
  Move-Fact b b' short (Move.check {old} a c) s f = ground (arith, active_count-mod old)
  Move-Fact b b' short (Move.changed a) s f = tt
  Move-Fact b b' short (Move.unchanged a) s f = ground (arith, active_count-mod m.status)
  Move-Fact b b' short (Move.refuse x a) s f = tt
  Move-Fact b b' short (Move.park x a) s f = ground (arith, active_count-mod m.status)
  Move-Fact b b' short Move.renew s f = ground (arith, active_count-mod m.status)
  Move-Fact b b' short Move.get_status s f = ground (arith, active_count-mod m.status)
  Move-Fact b b' short (Move.pop_newer a c) s f = tt
  Move-Fact b b' short (Move.newer_empty a c) s f = ground (arith, active_count-mod m.status)
  Move-Fact b b' short (Move.not_newer a) s f = ground (arith, active_count-mod m.status)
  Move-Fact b b' short Move.resume s f = ground (arith, active_count-mod m.status)
  Move-Fact b b' short Move.push_own s f = tt
  Move-Fact b b' short Move.polled s f = tt
  Move-Fact b b' short Move.exit s f = tt

  pub Move-Grows :
      {p q : Pc} {m' : Mem} (v : ℕ)
      → v ≢ w
      → Move n max m w p m' q
      → Sums n ts us p q
      → Grows m m' (m.wakers + total alarm ts) (m'.wakers + total alarm us) v
  unfolding set_active set_inactive
  Move-Grows v ne (Move.pop_local e) s = ground (arith, active_count-mod m.status)
  Move-Grows v ne (Move.drained e) s = ground (arith, active_count-mod m.status)
  Move-Grows v ne Move.get_instant s = ground (arith, active_count-mod m.status)
  Move-Grows v ne Move.stop s = ground (arith, active_count-mod m.status)
  Move-Grows v ne (Move.steal victim some lt ne_w e) s = ground (arith, active_count-mod m.status)
  Move-Grows v ne (Move.steal_none a) s = ground (arith, active_count-mod m.status)
  Move-Grows v ne (Move.pop_last a c) s = ground (arith, active_count-mod m.status)
  Move-Grows v ne (Move.check a c) s = ground (arith, active_count-mod m.status)
  Move-Grows v ne (Move.changed a) s = ground (arith, active_count-mod m.status)
  Move-Grows v ne (Move.unchanged a) s = ground (arith, active_count-mod m.status)
  Move-Grows v ne (Move.refuse x a) s = ground (arith, active_count-mod m.status)
  Move-Grows v ne (Move.park x a) s = ground (arith, active_count-mod m.status)
  Move-Grows v ne Move.renew s = ground (arith, active_count-mod m.status)
  Move-Grows v ne Move.get_status s = ground (arith, active_count-mod m.status)
  Move-Grows v ne (Move.pop_newer a c) s = ground (arith, active_count-mod m.status)
  Move-Grows v ne (Move.newer_empty a c) s = ground (arith, active_count-mod m.status)
  Move-Grows v ne (Move.not_newer a) s = ground (arith, active_count-mod m.status)
  Move-Grows v ne Move.resume s = ground (arith, active_count-mod m.status)
  Move-Grows v ne Move.push_own s = ground (arith, active_count-mod m.status)
  Move-Grows v ne Move.polled s = ground (arith, active_count-mod m.status)
  Move-Grows v ne Move.exit s = ground (arith, active_count-mod m.status)
