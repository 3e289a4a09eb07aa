-- ===== src/Epoch/Defs.antt =====
-- The operations of `Epoch` on its status word. An operation returns the new word, its result, and
-- whether it goes on to `wake_all_slow`; the parking itself is in Scheduler.
use Prim.Native.Nat.{bit_and}
use yaay_rs.Base.{ℕ, Bool, true, false, ltb, ◌==◌, if◌then◌else◌, Option, none, some}
use yaay_rs.Word.{add32, sub32, shl32, shr, not32}

abbrev pub active_count_bits : ℕ
active_count_bits = 9

abbrev pub active_count_mask : ℕ
active_count_mask = not32 (shl32 (shr (not32 0) active_count_bits) active_count_bits)

abbrev pub epoch_one : ℕ
epoch_one = shl32 1 active_count_bits

-- `new`: the word, or a panic
unfoldable pub new : ℕ → Option ℕ
new n_threads = if ltb n_threads epoch_one then some n_threads else none

unfoldable pub active_count : ℕ → ℕ
active_count status = bit_and status active_count_mask

unfoldable pub epoch : ℕ → ℕ
epoch status = shr status active_count_bits

-- What an operation on the word does.
pub record Outcome : Type 0 where
  pub word : ℕ
  pub result : ℕ
  pub wakes : Bool

unfoldable pub set_active : ℕ → Outcome
set_active status = record {
  word = add32 status 1;
  result = add32 status 1;
  wakes = active_count status == 0;
}

unfoldable pub set_inactive : ℕ → Outcome
set_inactive status = record { word = sub32 status 1; result = sub32 status 1; wakes = false }

unfoldable pub next_epoch : ℕ → Outcome
next_epoch status = record {
  word = add32 status epoch_one;
  result = status;
  wakes = active_count status == 0;
}

-- The closure `validate` of `wait_slow`: park only if the status is still the old one and the instant
-- is recent enough. A `compare_exchange_weak` may also fail with no reason (`spurious`).
unfoldable pub validate : (spurious : Bool) (status old_status elapsed max_duration : ℕ) → Bool
validate spurious status old_status elapsed max_duration =
    if spurious
    then false
    else (if status == old_status
        then (if ltb max_duration elapsed then false else true)
        else false)
