-- ===== src/Word.antt =====
-- `u32` arithmetic as the runtime's counters and its generator use it, with the wrap-around
-- written out, and the laws of its bit operations.
mod And
mod Xor
pub use And.*
pub use Xor.*
use yaay_rs.Base.{ℕ, ◌+◌, ◌-◌, ◌*◌, ◌/◌, ◌%◌, ◌^◌}

abbrev pub u32_mod : ℕ
u32_mod = 2 ^ 32

-- `fetch_add` and `+` of a release build
abbrev pub add32 : ℕ → ℕ → ℕ
add32 a b = (a + b) % u32_mod

-- `fetch_sub` and `-` of a release build
abbrev pub sub32 : ℕ → ℕ → ℕ
sub32 a b = (a + u32_mod - b) % u32_mod

-- `a << k`
abbrev pub shl32 : ℕ → ℕ → ℕ
shl32 a k = a * 2 ^ k % u32_mod

-- `a >> k`
abbrev pub shr : ℕ → ℕ → ℕ
shr a k = a / 2 ^ k

-- `!a`
abbrev pub not32 : ℕ → ℕ
not32 a = u32_mod - 1 - a
