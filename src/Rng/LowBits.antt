-- ===== src/Rng/LowBits.antt =====
-- What `next_seed` keeps of the seed: the range of a word, the five lowest bits, being nonzero.
use Prim.Native.Nat.{bit_xor}
use yaay_rs.Base.{ℕ, ◌%◌, ◌<◌, ◌≡◌, ◌≢◌, arith, ◌∙◌}
use yaay_rs.Word.{u32_mod, shl32, bit_xor-lt_pow, bit_xor-low_five, eq_of_bit_xor_zero}
use yaay_rs.Rng.Defs.{next_seed}

round : ℕ → ℕ → ℕ
round k s = bit_xor s (shl32 s k)

round-lt : (k s : ℕ) → s < u32_mod → round k s < u32_mod
unfolding round
round-lt k s h = bit_xor-lt_pow 32 s (shl32 s k) h (omega arith)

round-low_five : (k s : ℕ) → shl32 s k % 32 ≡ 0 → round k s % 32 ≡ s % 32
unfolding round
round-low_five k s h = bit_xor-low_five s (shl32 s k) h

-- The next seed is a `u32` again.
pub next_seed-lt : (s : ℕ) → s < u32_mod → next_seed s < u32_mod
unfolding next_seed round
next_seed-lt s h = round-lt 5 _ (round-lt 17 _ (round-lt 13 s h))

-- Every round shifts to the left by five or more, so the five lowest bits of the seed stay what
-- they are for ever.
pub next_seed-low_five : (s : ℕ) → next_seed s % 32 ≡ s % 32
unfolding next_seed round
next_seed-low_five s =
    round-low_five 5 _ (omega arith)
    ∙ (round-low_five 17 _ (omega arith) ∙ round-low_five 13 s (omega arith))

round_shift-ne_zero : (s k : ℕ) → s < u32_mod → (s ≡ shl32 s k → s ≡ 0) → s ≢ 0 → round k s ≢ 0
unfolding round
round_shift-ne_zero s k h only ne z =
    ne (only (eq_of_bit_xor_zero 32 s (shl32 s k) h (omega arith) z))

-- From a nonzero seed the generator never reaches 0, where it would stay.
pub next_seed-ne_zero : (s : ℕ) → s < u32_mod → s ≢ 0 → next_seed s ≢ 0
unfolding next_seed round
next_seed-ne_zero s h ne =
    let a : ℕ = round 13 s in
    let b : ℕ = round 17 a in
    let a_lt : a < u32_mod = round-lt 13 s h in
    let b_lt : b < u32_mod = round-lt 17 a a_lt in
    round_shift-ne_zero b 5 b_lt (λ e. omega arith)
      (round_shift-ne_zero a 17 a_lt (λ e. omega arith)
        (round_shift-ne_zero s 13 h (λ e. omega arith) ne))
