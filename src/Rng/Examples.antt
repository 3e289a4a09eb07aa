-- ===== src/Rng/Examples.antt =====
-- The first number of the generator from the seed 1.
use yaay_rs.Base.{◌≡◌, refl}
use yaay_rs.Rng.Defs.{next_seed}

next_seed_one : next_seed 1 ≡ 1078337569
unfolding next_seed
next_seed_one = refl
