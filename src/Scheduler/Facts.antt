-- ===== src/Scheduler/Facts.antt =====
-- What the locals of a worker say about the shared state, and that the others do not spoil it.
use yaay_rs.Base.{ℕ, ◌+◌, ◌/◌, ◌%◌, ◌^◌, ◌≤◌, ◌<◌, ◌≡◌, ◌⊎◌, arith}
use yaay_rs.Scheduler.Machine.{
  Mem, Pc, stopping, searching, checked, entering, parked, reading, comparing,
}

-- Since the instant `t`, when there had been `k` ticks, each tick took a unit of time or more.
pub record Timed (m : Mem) (t k : ℕ) : Type 0 where
  pub paced : t + m.ticks ≤ m.clock + k
  pub past : k ≤ m.ticks

-- The word `old` was read at `r` ticks, after `k` ticks, by an inactive worker.
pub record Read (n : ℕ) (m : Mem) (old k r : ℕ) : Type 0 where
  pub after : k ≤ r
  pub before : r ≤ m.ticks
  pub epoch_read : old / 512 ≡ r % 2 ^ 23
  pub active_read : old % 512 + 1 ≤ n

-- A task in the queue of `w`, which was empty at `r` ticks, is still to be announced or has been.
abbrev pub Covered : Mem → ℕ → ℕ → Type 0
Covered m w r = 0 < m.queue w → (0 < m.pushers) ⊎ (r < m.ticks)

-- The same for a worker that sleeps: it is still to be announced, or `b` threads are about to wake the
-- sleepers.
pub record Sleeps (m : Mem) (b w : ℕ) : Type 0 where
  pub covered : 0 < m.queue w → (0 < m.pushers) ⊎ (0 < b)
  pub quiet : (m.status % 512 ≡ 0) ⊎ (0 < b)

abbrev pub Fact : ℕ → Mem → ℕ → ℕ → Pc → Type 0
Fact n m b w (stopping t k) = Timed m t k
Fact n m b w (searching old t k r) = Timed m t k × Read n m old k r
Fact n m b w (checked old t k r) = Timed m t k × Read n m old k r × (old % 512 ≡ 0) × Covered m w r
Fact n m b w (entering old t k r) = Timed m t k × Read n m old k r × (old % 512 ≡ 0) × Covered m w r
Fact n m b w (parked old t k r) = Sleeps m b w
Fact n m b w (reading old t k) = Timed m t k
Fact n m b w (comparing old new t k r) = Timed m t k × Read n m new k r
Fact n m b w _ = Unit

-- A step from `m` to `m'`, as a worker `w` sees it that does not take it.
pub record Grows (m m' : Mem) (b b' w : ℕ) : Type 0 where
  pub ticking : m.ticks ≤ m'.ticks
  pub pacing : m.clock + m'.ticks ≤ m'.clock + m.ticks
  pub pushing : 0 < m'.queue w → (0 < m.queue w) ⊎ (0 < m'.pushers)
  pub announcing : 0 < m.pushers → (0 < m'.pushers) ⊎ (m.ticks < m'.ticks)
  pub alarming : m.status % 512 ≡ 0 → 0 < m.pushers → (0 < m'.pushers) ⊎ (0 < b')
  pub lasting : 0 < b → 0 < b'
  pub quieting : m.status % 512 ≡ 0 → (m'.status % 512 ≡ 0) ⊎ (0 < b')

pub Fact-Grows :
    {m m' : Mem} {b b' w : ℕ} (n : ℕ) (p : Pc)
    → Grows m m' b b' w
    → Fact n m b w p
    → Fact n m' b' w p
Fact-Grows n (stopping t k) g f = ground arith
Fact-Grows n (searching old t k r) g f = ground arith
Fact-Grows n (checked old t k r) g f = ground arith
Fact-Grows n (entering old t k r) g f = ground arith
Fact-Grows n (parked old t k r) g f = ground arith
Fact-Grows n (reading old t k) g f = ground arith
Fact-Grows n (comparing old new t k r) g f = ground arith
Fact-Grows n _ g f = tt
