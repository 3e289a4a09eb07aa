-- ===== src/Task/Status.antt =====
-- The status byte of a task (yaay-mt-runtime/src/task.rs): three bits, read and written by atomic
-- read-modify-write operations. The other five bits are never set.

use yaay_rs.Base.{ℕ, ◌+◌, ◌*◌, Bool, true, false, not, ◌&&◌, ◌||◌}

-- `| MUTED | NOTIFIED | DROPPED |`
pub record Status : Type 0 where
  pub muted : Bool
  pub notified : Bool
  pub dropped : Bool

abbrev pub bits : Bool → Bool → Bool → Status
bits m n d = record { muted = m; notified = n; dropped = d }

abbrev pub muted_bit : Status
muted_bit = bits true false false

abbrev pub notified_bit : Status
notified_bit = bits false true false

abbrev pub dropped_bit : Status
dropped_bit = bits false false true

abbrev pub no_bits : Status
no_bits = bits false false false

-- `a | b`
abbrev pub or_bits : Status → Status → Status
or_bits a b = bits (a.muted || b.muted) (a.notified || b.notified) (a.dropped || b.dropped)

-- `a & b`
abbrev pub and_bits : Status → Status → Status
and_bits a b = bits (a.muted && b.muted) (a.notified && b.notified) (a.dropped && b.dropped)

-- `!a`, within the three bits
abbrev pub not_bits : Status → Status
not_bits a = bits (not a.muted) (not a.notified) (not a.dropped)

-- `a != 0`
abbrev pub has_bits : Status → Bool
has_bits a = a.muted || (a.notified || a.dropped)

-- `a == b`
abbrev pub eq_bool : Bool → Bool → Bool
eq_bool true b = b
eq_bool false b = not b

abbrev pub eq_bits : Status → Status → Bool
eq_bits a b =
    eq_bool a.muted b.muted && (eq_bool a.notified b.notified && eq_bool a.dropped b.dropped)

abbrev pub digit : Bool → ℕ
digit true = 1
digit false = 0

-- The `u8` that the status stands for: MUTED = 1, NOTIFIED = MUTED << 1, DROPPED = NOTIFIED << 1.
unfoldable pub byte : Status → ℕ
byte s = digit s.muted + 2 * digit s.notified + 4 * digit s.dropped
