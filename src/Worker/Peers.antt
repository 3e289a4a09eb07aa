-- ===== src/Worker/Peers.antt =====
-- The list `other_workers` that `WorkerBuilder::build` makes
-- (yaay-mt-runtime/src/worker_manager.rs): all workers but the one that is built.
use yaay_rs.Base.{
  ℕ, zero, suc, ◌+◌, ◌≤◌, ◌<◌, ◌≡◌, refl, List, [], ◌∷◌, ltb, ◌==◌, if◌then◌else◌, get_elem?, some,
  arith, ap, ℕ_discrete, ◌∙◌,
}

-- The worker ids 0, …, n - 1, counted from `i`.
unfoldable pub ids_from : ℕ → ℕ → List ℕ
ids_from i zero = []
ids_from i (suc n) = i ∷ ids_from (i + 1) n

-- `.enumerate().filter(|&(i, _)| i != worker_id)`, the first index being `i`
unfoldable pub others_from {ℓ} : {A : Type ℓ} → ℕ → ℕ → List A → List A
others_from i w [] = []
others_from i w (x ∷ xs) = let rest = others_from (i + 1) w xs in if i == w then rest else x ∷ rest

-- `other_workers` of worker `w` of `n`
unfoldable pub other_workers : ℕ → ℕ → List ℕ
unfolding ids_from others_from
other_workers n w = others_from 0 w (ids_from 0 n)

pub get_elem?-ids_from : (i n t : ℕ) → t < n → get_elem? (ids_from i n) t ≡ some (i + t)
unfolding ids_from
get_elem?-ids_from i zero t lt = elim lt [ ]
get_elem?-ids_from i (suc n) zero lt = ap some (omega arith)
get_elem?-ids_from i (suc n) (suc t) lt = ground (arith, get_elem?-ids_from (i + 1) n t)

-- Past the worker itself nothing is left out.
others_from-past {ℓ} : {A : Type ℓ} (i w : ℕ) (xs : List A) → w < i → others_from i w xs ≡ xs
unfolding others_from
others_from-past i w [] lt = refl
others_from-past i w (x ∷ xs) lt = ground (arith, others_from-past (i + 1) w xs)

-- The list skips one index and keeps the order.
get_elem?-others_from {ℓ} :
    {A : Type ℓ} (i w t : ℕ) (xs : List A)
    → i ≤ w
    → get_elem? (others_from i w xs) t ≡ get_elem? xs (if ltb (t + i) w then t else suc t)
unfolding others_from
get_elem?-others_from i w t [] le = ground arith
get_elem?-others_from i w zero (x ∷ xs) le = elim (ℕ_discrete i w) [
  | yes e ↦ ground (arith, others_from-past (i + 1) w xs)
  | no ne ↦ ground arith
]
get_elem?-others_from i w (suc t) (x ∷ xs) le = elim (ℕ_discrete i w) [
  | yes e ↦ ground (arith, others_from-past (i + 1) w xs)
  | no ne ↦ ground (arith, get_elem?-others_from (i + 1) w t xs)
]

-- Entry `t` of `other_workers` is worker `t` before the worker itself, and worker `t + 1` from there on.
pub other_workers-get :
    (n w t : ℕ)
    → w < n
    → suc t < n
    → get_elem? (other_workers n w) t ≡ some (if ltb t w then t else suc t)
unfolding other_workers
other_workers-get n w t lt_w lt_t =
    get_elem?-others_from 0 w t (ids_from 0 n) (omega arith)
    ∙ ground (arith, get_elem?-ids_from 0 n t, get_elem?-ids_from 0 n (suc t))
