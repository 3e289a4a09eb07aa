-- ===== src/Epoch/Fields.antt =====
-- The two counters of the status word.
use yaay_rs.Base.{ℕ, ◌+◌, ◌/◌, ◌%◌, ◌^◌, ◌<◌, ◌≡◌, refl, ◌==◌, arith}
use yaay_rs.Word.{u32_mod, bit_and-nine_ones}
use yaay_rs.Epoch.Defs.{active_count, epoch, set_active, set_inactive, next_epoch}

pub active_count-mod : (s : ℕ) → active_count s ≡ s % 512
unfolding active_count
active_count-mod s = bit_and-nine_ones s

pub epoch-div : (s : ℕ) → epoch s ≡ s / 512
unfolding epoch
epoch-div s = refl

-- `next_epoch` moves the epoch on by one, modulo 2 ^ 23, and leaves the active count alone.
pub next_epoch-fields :
    (s : ℕ)
    → s < u32_mod
    → (epoch (next_epoch s).word ≡ (epoch s + 1) % 2 ^ 23)
      × (active_count (next_epoch s).word ≡ active_count s)
      × ((next_epoch s).wakes ≡ (active_count s == 0))
unfolding next_epoch
next_epoch-fields s h =
    (omega (arith, epoch-div, active_count-mod), omega (arith, epoch-div, active_count-mod), refl)

-- With fewer than 511 active threads `set_active` counts one more, leaves the epoch alone, returns
-- the new word, and wakes the others exactly if there was none.
pub set_active-fields :
    (s : ℕ)
    → s < u32_mod
    → active_count s < 511
    → (active_count (set_active s).word ≡ active_count s + 1)
      × (epoch (set_active s).word ≡ epoch s)
      × ((set_active s).result ≡ (set_active s).word)
      × ((set_active s).wakes ≡ (active_count s == 0))
unfolding set_active
set_active-fields s h few = (
  omega (arith, epoch-div, active_count-mod),
  omega (arith, epoch-div, active_count-mod),
  refl,
  refl,
)

-- With an active thread `set_inactive` counts one less, leaves the epoch alone, and is undone by
-- `set_active`.
pub set_inactive-fields :
    (s : ℕ)
    → s < u32_mod
    → 0 < active_count s
    → (active_count (set_inactive s).word + 1 ≡ active_count s)
      × (epoch (set_inactive s).word ≡ epoch s)
      × ((set_active (set_inactive s).word).word ≡ s)
unfolding set_active set_inactive
set_inactive-fields s h some_active = (
  omega (arith, epoch-div, active_count-mod),
  omega (arith, epoch-div, active_count-mod),
  omega (arith, active_count-mod s),
)
