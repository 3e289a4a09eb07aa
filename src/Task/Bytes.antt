-- ===== src/Task/Bytes.antt =====
-- The status operations are those of the byte.
use Prim.Native.Nat.{bit_and, bit_or}
use yaay_rs.Base.{◌-◌, ◌≡◌, refl, Bool, true, false, not, ◌&&◌, ◌==◌, eq-beq, arith}
use yaay_rs.Task.Status.{
  Status, bits, or_bits, and_bits, not_bits, has_bits, eq_bits, eq_bool, byte,
}

-- What the byte operations give, for two statuses.
abbrev pub BytesAgree : Status → Status → Type 0
BytesAgree a b =
    (byte (or_bits a b) ≡ bit_or (byte a) (byte b))
    × (byte (and_bits a b) ≡ bit_and (byte a) (byte b))
    × (byte (and_bits a (not_bits b)) ≡ bit_and (byte a) (255 - byte b))
    × (eq_bits a b ≡ (byte a == byte b))
    × (has_bits a ≡ not (byte a == 0))

-- A test of every status.
all_statuses : (Status → Bool) → Bool
all_statuses p =
    (p (bits true true true) && p (bits true true false))
    && (p (bits true false true) && p (bits true false false))
    && ((p (bits false true true) && p (bits false true false))
        && (p (bits false false true) && p (bits false false false)))

all_statuses_sound :
    (p : Status → Bool) → all_statuses p ≡ true → (m n d : Bool) → p (bits m n d) ≡ true
unfolding all_statuses
all_statuses_sound p h true true true = ground arith
all_statuses_sound p h true true false = ground arith
all_statuses_sound p h true false true = ground arith
all_statuses_sound p h true false false = ground arith
all_statuses_sound p h false true true = ground arith
all_statuses_sound p h false true false = ground arith
all_statuses_sound p h false false true = ground arith
all_statuses_sound p h false false false = ground arith

-- A test that holds at all 64 pairs holds at every pair.
by_table :
    (p : Status → Status → Bool)
    → all_statuses (λ s. all_statuses (p s)) ≡ true
    → (s t : Status) → p s t ≡ true
by_table p h s t =
    all_statuses_sound (p s)
      (all_statuses_sound (λ r. all_statuses (p r)) h s.muted s.notified s.dropped) t.muted
      t.notified t.dropped

eq_of_eq_bool : (a b : Bool) → eq_bool a b ≡ true → a ≡ b
eq_of_eq_bool true b h = ground arith
eq_of_eq_bool false b h = ground arith

-- On every two statuses, `|`, `&`, `& !`, `==` and `!= 0` of the three bits are those of the bytes
-- that they stand for.
pub status_bytes : (s t : Status) → BytesAgree s t
unfolding all_statuses byte
status_bytes s t = (
  eq-beq _ _ (by_table (λ a b. byte (or_bits a b) == bit_or (byte a) (byte b)) refl s t),
  eq-beq _ _ (by_table (λ a b. byte (and_bits a b) == bit_and (byte a) (byte b)) refl s t),
  eq-beq _ _ (
      by_table (λ a b. byte (and_bits a (not_bits b)) == bit_and (byte a) (255 - byte b)) refl s t),
  eq_of_eq_bool _ _ (by_table (λ a b. eq_bool (eq_bits a b) (byte a == byte b)) refl s t),
  eq_of_eq_bool _ _ (by_table (λ a b. eq_bool (has_bits a) (not (byte a == 0))) refl s t),
)
