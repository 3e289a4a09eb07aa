-- ===== src/Rng/Defs.antt =====
-- The two functions of yaay-mt-runtime/src/rng.rs.
use Prim.Native.Nat.{bit_xor}
use yaay_rs.Base.{ℕ, ◌%◌, ◌^◌, Option, none, some}
use yaay_rs.Word.{shl32}

-- Three rounds of a xorshift generator; each shift goes to the left.
unfoldable pub next_seed : ℕ → ℕ
next_seed seed =
    let a = bit_xor seed (shl32 seed 13) in let b = bit_xor a (shl32 a 17) in bit_xor b (shl32 b 5)

-- Given the microseconds since 1970, or `none` if the clock shows an earlier time, where `unwrap`
-- panics; the cast keeps 32 bits.
unfoldable pub seed_from_system_time : Option ℕ → Option ℕ
seed_from_system_time none = none
seed_from_system_time (some micros) = some (micros % 2 ^ 32)
