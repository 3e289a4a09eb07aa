-- ===== src/Worker/Targets.antt =====
-- Which worker `spawn` pushes to, and how its choices go on.
use Prim.Native.Nat.{◌∣◌}
use native.Mathlib.Nat.{mod-mod_of_dvd}
use yaay_rs.Base.{
  ℕ, zero, suc, ◌+◌, ◌-◌, ◌%◌, ◌<◌, ◌≡◌, refl, ltb, ◌==◌, if◌then◌else◌, get_elem?, Option, some,
  none, arith, ◌∙◌, ap, sym,
}
use yaay_rs.Rng.Defs.{next_seed}
use yaay_rs.Rng.{next_seed-low_five}
use yaay_rs.Worker.Peers.{other_workers, other_workers-get}

-- The id of the worker whose queue `spawn` of worker `w` of `n` pushes to. `none` is a panic or an
-- access out of bounds.
unfoldable pub spawn_target : (n w seed : ℕ) → Option ℕ
spawn_target n w seed =
    let target_index = seed % n in
    if n == 0
    then none
    else (if target_index + 1 == n then some w else get_elem? (other_workers n w) target_index)

-- The worker of index `t`: the others in their order, and the worker itself last.
abbrev pub nth_target : ℕ → ℕ → ℕ → ℕ
nth_target n w t = if suc t == n then w else (if ltb t w then t else suc t)

-- `spawn` always finds a target, which is a worker, and which depends on the seed modulo `n` alone.
pub spawn_target-nth :
    (n w seed : ℕ)
    → w < n
    → (spawn_target n w seed ≡ some (nth_target n w (seed % n))) × (nth_target n w (seed % n) < n)
unfolding spawn_target
spawn_target-nth n w seed lt =
    let small : seed % n < n = grind arith in
    (ground (arith, other_workers-get n w (seed % n)), ground arith)

nth_target_unique :
    (n w v : ℕ)
    → w < n
    → v < n
    → (t : ℕ) × (t < n) × (nth_target n w t ≡ v) × ((u : ℕ) → u < n → nth_target n w u ≡ v → u ≡ t)
nth_target_unique n w v lt_w lt_v = (
  if v == w then n - 1 else (if ltb v w then v else v - 1),
  ground arith,
  ground arith,
  λ u lt e. ground arith,
)

-- `spawn` can push to every worker, the spawning one included, and does so for the seeds of exactly
-- one remainder modulo `n`.
pub spawn_target_unique :
    (n w v : ℕ)
    → w < n
    → v < n
    → (t : ℕ) × (t < n)
      × ((seed : ℕ) → seed % n ≡ t → spawn_target n w seed ≡ some v)
      × ((seed : ℕ) → spawn_target n w seed ≡ some v → seed % n ≡ t)
spawn_target_unique n w v lt_w lt_v =
    let (t, lt, at, one) = nth_target_unique n w v lt_w lt_v in
    (
      t,
      lt,
      λ seed e. (spawn_target-nth n w seed lt_w).0 ∙ ap some (ap (nth_target n w) e ∙ at),
      λ seed e.
          let small : seed % n < n = grind arith in
          let hit : nth_target n w (seed % n) ≡ v =
            ground (arith, spawn_target-nth n w seed lt_w) in
          one (seed % n) small hit,
    )

-- The seed after `k` calls of `next_seed`.
unfoldable pub seed_after : ℕ → ℕ → ℕ
seed_after zero seed = seed
seed_after (suc k) seed = seed_after k (next_seed seed)

seed_after-low_five : (k s : ℕ) → seed_after k s % 32 ≡ s % 32
unfolding seed_after
seed_after-low_five zero s = refl
seed_after-low_five (suc k) s = seed_after-low_five k (next_seed s) ∙ next_seed-low_five s

-- Where the number of workers divides 32, as 2, 4 and 8 do, a worker's successive calls of `spawn` all
-- push to one and the same queue.
pub spawn_target-constant :
    (n w k seed : ℕ) → n ∣ 32 → spawn_target n w (seed_after k seed) ≡ spawn_target n w seed
unfolding spawn_target
spawn_target-constant n w k seed dvd =
    let same : seed_after k seed % n ≡ seed % n =
      sym (mod-mod_of_dvd n (seed_after k seed) dvd)
      ∙ (ap (λ t. t % n) (seed_after-low_five k seed) ∙ mod-mod_of_dvd n seed dvd) in
    rw same
