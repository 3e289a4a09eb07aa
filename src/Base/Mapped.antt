-- ===== src/Base/Mapped.antt =====
-- What a function leaves of a list of threads that changes at one place, or everywhere.
use Prim.Native.Nat.{ℕ, zero, suc}
use mathlib.Core.Path.{◌≡◌, refl, ap}
use mathlib.Core.List.{List, [], ◌∷◌, map}
use mathlib.Core.Option.{some}
use native.Mathlib.Omega.{arith}
use yaay_rs.Base.Lists.{get_elem?, set, length, total}

-- `vec![a; n]`
abbrev pub fill {ℓ} : {A : Type ℓ} → A → ℕ → List A
fill a zero = []
fill a (suc n) = a ∷ fill a n

module _ {ℓ} {A : Type ℓ} where
  pub length-fill : (a : A) (n : ℕ) → length (fill a n) ≡ n
  length-fill a zero = refl
  length-fill a (suc n) = ap suc (length-fill a n)

  pub total-fill : (w : A → ℕ) (a : A) (n : ℕ) → w a ≡ 0 → total w (fill a n) ≡ 0
  unfolding total
  total-fill w a zero e = refl
  total-fill w a (suc n) e = omega (arith, total-fill w a n e)

  pub get_elem?-mapped :
      (g : A → A) (ts : List A) (i : ℕ) (p : A)
      → get_elem? ts i ≡ some p
      → get_elem? (map g ts) i ≡ some (g p)
  get_elem?-mapped g [] i p at = absurd (ground arith)
  get_elem?-mapped g (t ∷ ts) zero p at = ground arith
  get_elem?-mapped g (t ∷ ts) (suc i) p at = get_elem?-mapped g ts i p at

module _ {ℓ ℓ'} {A : Type ℓ} {B : Type ℓ'} (f : A → B) where
  pub map-fill : (a : A) (n : ℕ) → map f (fill a n) ≡ fill (f a) n
  map-fill a zero = refl
  map-fill a (suc n) = ap (λ bs. f a ∷ bs) (map-fill a n)

  pub map-set : (ts : List A) (i : ℕ) (q : A) → map f (set ts i q) ≡ set (map f ts) i (f q)
  map-set [] i q = refl
  map-set (t ∷ ts) zero q = refl
  map-set (t ∷ ts) (suc i) q = ap (λ us. f t ∷ us) (map-set ts i q)

  -- A step that `f` does not see
  pub map-set_same :
      (ts : List A) (i : ℕ) (p q : A)
      → get_elem? ts i ≡ some p
      → f p ≡ f q
      → map f (set ts i q) ≡ map f ts
  map-set_same [] i p q at same = refl
  map-set_same (t ∷ ts) zero p q at same = ground arith
  map-set_same (t ∷ ts) (suc i) p q at same = ap (λ us. f t ∷ us) (map-set_same ts i p q at same)

  pub map-map_same :
      (g : A → A) (ts : List A) → ((p : A) → f (g p) ≡ f p) → map f (map g ts) ≡ map f ts
  map-map_same g [] same = refl
  map-map_same g (t ∷ ts) same = ground (arith, same t, map-map_same g ts same)
