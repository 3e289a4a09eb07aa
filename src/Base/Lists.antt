-- ===== src/Base/Lists.antt =====
-- Lists measured and indexed by native numbers, under the library's names.
use Prim.Native.Nat.{ℕ, zero, suc, ◌+◌, ◌≤◌, ◌<◌}
use mathlib.Core.Path.{◌≡◌, refl, ap}
use mathlib.Core.Logic.{◌≢◌}
use mathlib.Core.List.{List, [], ◌∷◌, ◌++◌, map}
use mathlib.Core.Option.{Option, none, some}
use native.Mathlib.Decide.{dec_lt}
use native.Mathlib.Omega.{arith}

module _ {ℓ} {A : Type ℓ} where
  abbrev pub length : List A → ℕ
  length [] = 0
  length (x ∷ xs) = suc (length xs)

  abbrev pub get_elem? : List A → ℕ → Option A
  get_elem? [] i = none
  get_elem? (x ∷ xs) zero = some x
  get_elem? (x ∷ xs) (suc i) = get_elem? xs i

  -- A write out of bounds changes nothing.
  abbrev pub set : List A → ℕ → A → List A
  set [] i v = []
  set (x ∷ xs) zero v = v ∷ xs
  set (x ∷ xs) (suc i) v = x ∷ set xs i v

  abbrev pub take : ℕ → List A → List A
  take zero xs = []
  take (suc n) [] = []
  take (suc n) (x ∷ xs) = x ∷ take n xs

  pub length-take : (n : ℕ) (xs : List A) → n ≤ length xs → length (take n xs) ≡ n
  length-take zero xs le = refl
  length-take (suc n) [] le = absurd (omega arith)
  length-take (suc n) (x ∷ xs) le = ap suc (length-take n xs (omega arith))

  pub length-append : (xs ys : List A) → length (xs ++ ys) ≡ length xs + length ys
  length-append [] ys = omega arith
  length-append (x ∷ xs) ys = omega (arith, length-append xs ys)

  pub set-set : (xs : List A) (i : ℕ) (x y : A) → set (set xs i x) i y ≡ set xs i y
  set-set [] i x y = refl
  set-set (z ∷ xs) zero x y = refl
  set-set (z ∷ xs) (suc i) x y = ap (λ l. z ∷ l) (set-set xs i x y)

  pub length-set : (xs : List A) (i : ℕ) (v : A) → length (set xs i v) ≡ length xs
  length-set [] i v = refl
  length-set (x ∷ xs) zero v = refl
  length-set (x ∷ xs) (suc i) v = ap suc (length-set xs i v)

-- The weight of a list of threads: the sum of what each contributes.
module _ {ℓ} {A : Type ℓ} (w : A → ℕ) where
  unfoldable pub total : List A → ℕ
  total [] = 0
  total (x ∷ xs) = w x + total xs

  -- Replacing one thread by another moves the total by the difference.
  pub total-set :
      (xs : List A) (i : ℕ) (x y : A)
      → get_elem? xs i ≡ some x
      → total (set xs i y) + w x ≡ total xs + w y
  unfolding total
  total-set [] i x y h = ground arith
  total-set (z ∷ xs) zero x y h = ground arith
  total-set (z ∷ xs) (suc i) x y h = omega (arith, total-set xs i x y h)

  pub total-append : (xs ys : List A) → total (xs ++ ys) ≡ total xs + total ys
  unfolding total
  total-append [] ys = omega arith
  total-append (x ∷ xs) ys = omega (arith, total-append xs ys)

  pub total-snoc : (xs : List A) (y : A) → total (xs ++ y ∷ []) ≡ total xs + w y
  unfolding total
  total-snoc xs y = omega (arith, total-append xs (y ∷ []))

  -- A thread weighs no more than all of them.
  pub total-get : (xs : List A) (i : ℕ) (x : A) → get_elem? xs i ≡ some x → w x ≤ total xs
  unfolding total
  total-get [] i x h = ground arith
  total-get (z ∷ xs) zero x h = ground arith
  total-get (z ∷ xs) (suc i) x h = omega (arith, total-get xs i x h)

  -- Two threads weigh no more than all of them.
  pub total-get_two :
      (xs : List A) (i j : ℕ) (x y : A)
      → get_elem? xs i ≡ some x
      → get_elem? xs j ≡ some y
      → i ≢ j
      → w x + w y ≤ total xs
  unfolding total
  total-get_two [] i j x y h k ne = ground arith
  total-get_two (z ∷ xs) zero zero x y h k ne = absurd (ne refl)
  total-get_two (z ∷ xs) zero (suc j) x y h k ne = ground (arith, total-get xs j y k)
  total-get_two (z ∷ xs) (suc i) zero x y h k ne = ground (arith, total-get xs i x h)
  total-get_two (z ∷ xs) (suc i) (suc j) x y h k ne =
      omega (arith, total-get_two xs i j x y h k (λ e. ne (ap suc e)))

  -- Where there is weight, some thread has it.
  pub total-find :
      (xs : List A) → 0 < total xs → (i : ℕ) × (x : A) × (get_elem? xs i ≡ some x) × (0 < w x)
  unfolding total
  total-find [] h = elim h [ ]
  total-find (z ∷ xs) h = elim (dec_lt 0 (w z)) [
    | yes own ↦ (0, z, refl, own)
    | no light ↦ let (i, x, got, heavy) = total-find xs (omega arith) in (suc i, x, got, heavy)
  ]

  pub total-le_length : ((a : A) → w a ≤ 1) → (xs : List A) → total xs ≤ length xs
  unfolding total
  total-le_length small [] = omega arith
  total-le_length small (x ∷ xs) = omega (arith, small x, total-le_length small xs)

module _ {ℓ} {A : Type ℓ} where
  pub get_elem?-set_self :
      (xs : List A) (i : ℕ) (x y : A) → get_elem? xs i ≡ some x → get_elem? (set xs i y) i ≡ some y
  get_elem?-set_self [] i x y h = ground arith
  get_elem?-set_self (z ∷ xs) zero x y h = refl
  get_elem?-set_self (z ∷ xs) (suc i) x y h = get_elem?-set_self xs i x y h

  pub get_elem?-set_lt :
      (xs : List A) (i : ℕ) (y : A) → i < length xs → get_elem? (set xs i y) i ≡ some y
  get_elem?-set_lt [] i y h = elim h [ ]
  get_elem?-set_lt (z ∷ xs) zero y h = refl
  get_elem?-set_lt (z ∷ xs) (suc i) y h = get_elem?-set_lt xs i y (omega arith)

  pub get_elem?-of_lt : (xs : List A) (i : ℕ) → i < length xs → (x : A) × (get_elem? xs i ≡ some x)
  get_elem?-of_lt [] i h = elim h [ ]
  get_elem?-of_lt (z ∷ xs) zero h = (z, refl)
  get_elem?-of_lt (z ∷ xs) (suc i) h = get_elem?-of_lt xs i (omega arith)

  pub lt_of_get_elem? : (xs : List A) (i : ℕ) (x : A) → get_elem? xs i ≡ some x → i < length xs
  lt_of_get_elem? [] i x h = absurd (ground arith)
  lt_of_get_elem? (z ∷ xs) zero x h = omega arith
  lt_of_get_elem? (z ∷ xs) (suc i) x h = omega (arith, lt_of_get_elem? xs i x h)

  pub get_elem?-set_ne :
      (xs : List A) (i j : ℕ) (y : A) → j ≢ i → get_elem? (set xs i y) j ≡ get_elem? xs j
  get_elem?-set_ne [] i j y ne = refl
  get_elem?-set_ne (x ∷ xs) zero zero y ne = absurd (ne refl)
  get_elem?-set_ne (x ∷ xs) zero (suc j) y ne = refl
  get_elem?-set_ne (x ∷ xs) (suc i) zero y ne = refl
  get_elem?-set_ne (x ∷ xs) (suc i) (suc j) y ne = get_elem?-set_ne xs i j y (λ e. ne (ap suc e))

  pub get_elem?-map :
      (f : A → A) (xs : List A) (i : ℕ) (y : A)
      → get_elem? (map f xs) i ≡ some y
      → (x : A) × (get_elem? xs i ≡ some x) × (y ≡ f x)
  get_elem?-map f [] i y h = absurd (ground arith)
  get_elem?-map f (x ∷ xs) zero y h = (x, refl, ground arith)
  get_elem?-map f (x ∷ xs) (suc i) y h = get_elem?-map f xs i y h

  pub length-map : (f : A → A) (xs : List A) → length (map f xs) ≡ length xs
  length-map f [] = refl
  length-map f (x ∷ xs) = ap suc (length-map f xs)

  pub total-map :
      (w : A → ℕ) (f : A → A) (xs : List A)
      → ((a : A) → w (f a) ≡ w a)
      → total w (map f xs) ≡ total w xs
  unfolding total
  total-map w f [] same = refl
  total-map w f (x ∷ xs) same = omega (arith, same x, total-map w f xs same)

  -- Two weights that share each thread between them add up to the number of threads.
  pub total-complement :
      (v w : A → ℕ) (xs : List A) → ((a : A) → v a + w a ≡ 1) → total v xs + total w xs ≡ length xs
  unfolding total
  total-complement v w [] one = refl
  total-complement v w (x ∷ xs) one = omega (arith, one x, total-complement v w xs one)
