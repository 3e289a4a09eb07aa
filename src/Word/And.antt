-- ===== src/Word/And.antt =====
-- `&` with a mask of nine ones is the remainder by 512, from the binary digits.
use Prim.Native.Nat.{bit_and, digits, min, bit_and-bitwise}
use yaay_rs.Base.{ℕ, zero, suc, ◌+◌, ◌*◌, ◌/◌, ◌%◌, ◌≤◌, ◌≡◌, refl, ap, arith}

abbrev and_digits : ℕ → ℕ → ℕ → ℕ
and_digits = digits (λ b. zero) min

and_digits-enough : (n m a b : ℕ) → a ≤ n → a ≤ m → and_digits n a b ≡ and_digits m a b
and_digits-enough zero zero zero b p q = refl
and_digits-enough zero (suc m) zero b p q = refl
and_digits-enough (suc n) zero zero b p q = refl
and_digits-enough (suc n) (suc m) zero b p q = refl
and_digits-enough zero m (suc a) b p q = absurd (omega arith)
and_digits-enough (suc n) zero (suc a) b p q = absurd (omega arith)
and_digits-enough (suc n) (suc m) (suc a) b p q =
    ap (λ t. t * 2 + min (suc a % 2) (b % 2))
      (and_digits-enough n m (suc a / 2) (b / 2) (omega arith) (omega arith))

bit_and-step : (a b : ℕ) → bit_and a b ≡ bit_and (a / 2) (b / 2) * 2 + min (a % 2) (b % 2)
bit_and-step zero b = simp bit_and-bitwise (omega arith)
bit_and-step (suc a) b = simp bit_and-bitwise (
    ap (λ t. t * 2 + min (suc a % 2) (b % 2))
      (and_digits-enough a (suc a / 2) (suc a / 2) (b / 2) (omega arith) (omega arith)))

bit_and-zero : (n a : ℕ) → a ≤ n → bit_and a 0 ≡ 0
bit_and-zero n zero h = refl
bit_and-zero zero (suc a) h = absurd (omega arith)
bit_and-zero (suc n) (suc a) h =
    omega (arith, bit_and-step (suc a) 0, bit_and-zero n (suc a / 2) (omega arith))

bit_and-seven : (a : ℕ) → bit_and a 7 ≡ a % 8
bit_and-seven a = omega (
  arith,
  bit_and-step a 7,
  bit_and-step (a / 2) 3,
  bit_and-step (a / 2 / 2) 1,
  bit_and-zero (a / 2 / 2 / 2) (a / 2 / 2 / 2) (omega arith),
)

bit_and-sixty_three : (a : ℕ) → bit_and a 63 ≡ a % 64
bit_and-sixty_three a = omega (
  arith,
  bit_and-step a 63,
  bit_and-step (a / 2) 31,
  bit_and-step (a / 2 / 2) 15,
  bit_and-seven (a / 2 / 2 / 2),
)

pub bit_and-nine_ones : (a : ℕ) → bit_and a 511 ≡ a % 512
bit_and-nine_ones a = omega (
  arith,
  bit_and-step a 511,
  bit_and-step (a / 2) 255,
  bit_and-step (a / 2 / 2) 127,
  bit_and-sixty_three (a / 2 / 2 / 2),
)
