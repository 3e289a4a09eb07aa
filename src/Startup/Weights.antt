-- ===== src/Startup/Weights.antt =====
-- The threads that stand at a point, as weights, and the invariant in their sums.
use yaay_rs.Base.{ℕ, ◌+◌, ◌<◌, ◌≡◌, Bool, true, false, map, length, total}
use yaay_rs.Startup.{
  Builder, start, stored, sleeping_ptrs, linked, counted, checking_built, sleeping_built, built,
  Waiter, sleeping, done, Site,
}

-- Its pointer is still null.
abbrev pub starts : Builder → ℕ
starts start = 1
starts _ = 0

abbrev pub sleeps_ptrs : Builder → ℕ
sleeps_ptrs sleeping_ptrs = 1
sleeps_ptrs _ = 0

-- About to call `worker_ptrs_cond.notify_all`.
abbrev pub alerts_ptrs : Builder → ℕ
alerts_ptrs (stored true) = 1
alerts_ptrs _ = 0

-- It has seen that all pointers are stored.
abbrev pub past_ptrs : Builder → ℕ
past_ptrs (stored true) = 1
past_ptrs linked = 1
past_ptrs (counted _) = 1
past_ptrs checking_built = 1
past_ptrs sleeping_built = 1
past_ptrs built = 1
past_ptrs _ = 0

-- It has added to `n_built`.
abbrev pub counts : Builder → ℕ
counts (counted _) = 1
counts checking_built = 1
counts sleeping_built = 1
counts built = 1
counts _ = 0

abbrev pub sleeps_built : Builder → ℕ
sleeps_built sleeping_built = 1
sleeps_built _ = 0

-- About to call `n_built_cond.notify_all`.
abbrev pub alerts_built : Builder → ℕ
alerts_built (counted true) = 1
alerts_built _ = 0

-- It has seen that all workers are built.
abbrev pub past_built : Builder → ℕ
past_built (counted true) = 1
past_built built = 1
past_built _ = 0

abbrev pub waiter_sleeps : Waiter → ℕ
waiter_sleeps sleeping = 1
waiter_sleeps _ = 0

abbrev pub waiter_past : Waiter → ℕ
waiter_past done = 1
waiter_past _ = 0

abbrev pub is_stored : Builder → Bool
is_stored start = false
is_stored _ = true

pub record Inv (n : ℕ) (s : Site) : Type 0 where
  pub sized : length s.builders ≡ n
  pub slots : s.ptrs ≡ map is_stored s.builders
  pub asleep_ptrs :
      total starts s.builders ≡ 0
      → 0 < total sleeps_ptrs s.builders
      → 0 < total alerts_ptrs s.builders
  pub all_ptrs : 0 < total past_ptrs s.builders → total starts s.builders ≡ 0
  pub counted : s.n_built ≡ total counts s.builders
  pub asleep_built :
      s.n_built ≡ n
      → 0 < total sleeps_built s.builders + waiter_sleeps s.waiter
      → 0 < total alerts_built s.builders
  pub all_built : 0 < total past_built s.builders + waiter_past s.waiter → s.n_built ≡ n
