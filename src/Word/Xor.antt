-- ===== src/Word/Xor.antt =====
-- Laws of `^` on machine words, from the binary digits that the operation stands for.
use Prim.Native.Nat.{bit_xor, digits, differ, bit_xor-bitwise}
use native.Mathlib.Nat.{pow-suc}
use yaay_rs.Base.{ℕ, zero, suc, ◌+◌, ◌*◌, ◌/◌, ◌%◌, ◌^◌, ◌≤◌, ◌<◌, ◌≡◌, refl, ap, arith}

abbrev xor_digits : ℕ → ℕ → ℕ → ℕ
xor_digits = digits (λ b. b) differ

-- Any count of digits that reaches `a` gives the same result.
xor_digits-enough : (n m a b : ℕ) → a ≤ n → a ≤ m → xor_digits n a b ≡ xor_digits m a b
xor_digits-enough zero zero zero b p q = refl
xor_digits-enough zero (suc m) zero b p q = refl
xor_digits-enough (suc n) zero zero b p q = refl
xor_digits-enough (suc n) (suc m) zero b p q = refl
xor_digits-enough zero m (suc a) b p q = absurd (omega arith)
xor_digits-enough (suc n) zero (suc a) b p q = absurd (omega arith)
xor_digits-enough (suc n) (suc m) (suc a) b p q =
    ap (λ t. t * 2 + differ (suc a % 2) (b % 2))
      (xor_digits-enough n m (suc a / 2) (b / 2) (omega arith) (omega arith))

-- One equation for the lowest digit.
pub bit_xor-step : (a b : ℕ) → bit_xor a b ≡ bit_xor (a / 2) (b / 2) * 2 + differ (a % 2) (b % 2)
bit_xor-step zero b = simp bit_xor-bitwise (omega arith)
bit_xor-step (suc a) b = simp bit_xor-bitwise (
    ap (λ t. t * 2 + differ (suc a % 2) (b % 2))
      (xor_digits-enough a (suc a / 2) (suc a / 2) (b / 2) (omega arith) (omega arith)))

differ-zero : (x : ℕ) → differ x 0 ≡ x
differ-zero zero = refl
differ-zero (suc x) = refl

differ-lt_two : (x y : ℕ) → x < 2 → y < 2 → differ x y < 2
differ-lt_two zero y p q = q
differ-lt_two (suc x) zero p q = p
differ-lt_two (suc x) (suc y) p q = differ-lt_two x y (omega arith) (omega arith)

-- A word whose lowest digit is 0 leaves the lowest digit alone.
pub bit_xor-double : (a c : ℕ) → bit_xor a (2 * c) ≡ 2 * bit_xor (a / 2) c + a % 2
bit_xor-double a c =
    let half : 2 * c / 2 ≡ c = omega arith in
    let even : 2 * c % 2 ≡ 0 = omega arith in
    let step : bit_xor a (2 * c) ≡ bit_xor (a / 2) c * 2 + differ (a % 2) 0 =
      rw (half, even) at (bit_xor-step a (2 * c)) in
    omega (arith, step, differ-zero (a % 2))

bit_xor-zero_zero : (a b : ℕ) → a < 1 → b < 1 → bit_xor a b < 1
bit_xor-zero_zero zero zero p q = omega arith
bit_xor-zero_zero zero (suc b) p q = absurd (omega arith)
bit_xor-zero_zero (suc a) b p q = absurd (omega arith)

-- The result has no more digits than the arguments.
pub bit_xor-lt_pow : (k a b : ℕ) → a < 2 ^ k → b < 2 ^ k → bit_xor a b < 2 ^ k
bit_xor-lt_pow zero a b p q = bit_xor-zero_zero a b p q
bit_xor-lt_pow (suc k) a b p q = omega (
  arith,
  pow-suc 2 k,
  bit_xor-step a b,
  differ-lt_two (a % 2) (b % 2) (omega arith) (omega arith),
  bit_xor-lt_pow k (a / 2) (b / 2) (omega (arith, pow-suc 2 k)) (omega (arith, pow-suc 2 k)),
)

-- A word whose five lowest digits are 0 leaves the five lowest digits alone.
pub bit_xor-low_five : (a b : ℕ) → b % 32 ≡ 0 → bit_xor a b % 32 ≡ a % 32
bit_xor-low_five a b h =
    let c : ℕ = b / 32 in
    let e : b ≡ 2 * (2 * (2 * (2 * (2 * c)))) = omega arith in
    rw e (
      omega (
        arith,
        bit_xor-double a (2 * (2 * (2 * (2 * c)))),
        bit_xor-double (a / 2) (2 * (2 * (2 * c))),
        bit_xor-double (a / 2 / 2) (2 * (2 * c)),
        bit_xor-double (a / 2 / 2 / 2) (2 * c),
        bit_xor-double (a / 2 / 2 / 2 / 2) c,
      ))

differ-eq_zero : (x y : ℕ) → x < 2 → y < 2 → differ x y ≡ 0 → x ≡ y
differ-eq_zero zero y p q h = omega arith
differ-eq_zero (suc x) zero p q h = absurd (omega arith)
differ-eq_zero (suc x) (suc y) p q h =
    omega (arith, differ-eq_zero x y (omega arith) (omega arith) h)

-- Only equal words cancel.
pub eq_of_bit_xor_zero : (k a b : ℕ) → a < 2 ^ k → b < 2 ^ k → bit_xor a b ≡ 0 → a ≡ b
eq_of_bit_xor_zero zero a b p q h = omega arith
eq_of_bit_xor_zero (suc k) a b p q h =
    let high : a / 2 ≡ b / 2 =
      eq_of_bit_xor_zero k (a / 2) (b / 2) (omega (arith, pow-suc 2 k)) (omega (arith, pow-suc 2 k))
        (omega (arith, bit_xor-step a b)) in
    let low : a % 2 ≡ b % 2 =
      differ-eq_zero (a % 2) (b % 2) (omega arith) (omega arith)
        (omega (arith, bit_xor-step a b)) in
    omega arith
