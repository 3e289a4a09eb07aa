-- ===== src/Startup/Sums.antt =====
-- The sums of weights before and after a step of a builder, and before and after a `notify_all`.
use yaay_rs.Base.{
  ℕ, ◌+◌, ◌≡◌, refl, ◌==◌, List, [], ◌∷◌, map, some, get_elem?, set, length, total, total-set,
  length-set, arith,
}
use yaay_rs.Startup.{Builder, start, stored, counted, all_true, wake_ptrs, wake_built}
use yaay_rs.Startup.Weights.{
  starts, sleeps_ptrs, alerts_ptrs, past_ptrs, counts, sleeps_built, alerts_built, past_built,
  is_stored,
}

-- The sums before and after a builder goes from `p` to `q`.
pub record Sums (ts us : List Builder) (p q : Builder) : Type 0 where
  pub start : total starts us + starts p ≡ total starts ts + starts q
  pub sleep_p : total sleeps_ptrs us + sleeps_ptrs p ≡ total sleeps_ptrs ts + sleeps_ptrs q
  pub alert_p : total alerts_ptrs us + alerts_ptrs p ≡ total alerts_ptrs ts + alerts_ptrs q
  pub past_p : total past_ptrs us + past_ptrs p ≡ total past_ptrs ts + past_ptrs q
  pub count : total counts us + counts p ≡ total counts ts + counts q
  pub sleep_b : total sleeps_built us + sleeps_built p ≡ total sleeps_built ts + sleeps_built q
  pub alert_b : total alerts_built us + alerts_built p ≡ total alerts_built ts + alerts_built q
  pub past_b : total past_built us + past_built p ≡ total past_built ts + past_built q
  pub size : length us ≡ length ts

pub set-Sums :
    (ts : List Builder) (i : ℕ) (p q : Builder) → get_elem? ts i ≡ some p → Sums ts (set ts i q) p q
set-Sums ts i p q at = record {
  start = total-set starts ts i p q at;
  sleep_p = total-set sleeps_ptrs ts i p q at;
  alert_p = total-set alerts_ptrs ts i p q at;
  past_p = total-set past_ptrs ts i p q at;
  count = total-set counts ts i p q at;
  sleep_b = total-set sleeps_built ts i p q at;
  alert_b = total-set alerts_built ts i p q at;
  past_b = total-set past_built ts i p q at;
  size = length-set ts i q;
}

pub all_true-stored : (ts : List Builder) → all_true (map is_stored ts) ≡ (total starts ts == 0)
unfolding total
all_true-stored [] = refl
all_true-stored (start ∷ ts) = ground arith
all_true-stored (stored b ∷ ts) = ground (arith, all_true-stored ts)
all_true-stored (counted b ∷ ts) = ground (arith, all_true-stored ts)
all_true-stored (t ∷ ts) = ground (arith, all_true-stored ts)

-- What `worker_ptrs_cond.notify_all` leaves: no builder sleeps there, and the other sums stay.
pub record WokenPtrs (ts us : List Builder) : Type 0 where
  pub start : total starts us ≡ total starts ts
  pub sleep_p : total sleeps_ptrs us ≡ 0
  pub past_p : total past_ptrs us ≡ total past_ptrs ts
  pub count : total counts us ≡ total counts ts
  pub sleep_b : total sleeps_built us ≡ total sleeps_built ts
  pub alert_b : total alerts_built us ≡ total alerts_built ts
  pub past_b : total past_built us ≡ total past_built ts
  pub size : length us ≡ length ts

pub wake_ptrs-WokenPtrs : (ts : List Builder) → WokenPtrs ts (map wake_ptrs ts)
unfolding total
wake_ptrs-WokenPtrs [] = ground arith
wake_ptrs-WokenPtrs (stored b ∷ ts) = ground (arith, wake_ptrs-WokenPtrs ts)
wake_ptrs-WokenPtrs (counted b ∷ ts) = ground (arith, wake_ptrs-WokenPtrs ts)
wake_ptrs-WokenPtrs (t ∷ ts) = ground (arith, wake_ptrs-WokenPtrs ts)

-- What `n_built_cond.notify_all` leaves.
pub record WokenBuilt (ts us : List Builder) : Type 0 where
  pub start : total starts us ≡ total starts ts
  pub sleep_p : total sleeps_ptrs us ≡ total sleeps_ptrs ts
  pub alert_p : total alerts_ptrs us ≡ total alerts_ptrs ts
  pub past_p : total past_ptrs us ≡ total past_ptrs ts
  pub count : total counts us ≡ total counts ts
  pub sleep_b : total sleeps_built us ≡ 0
  pub past_b : total past_built us ≡ total past_built ts
  pub size : length us ≡ length ts

pub wake_built-WokenBuilt : (ts : List Builder) → WokenBuilt ts (map wake_built ts)
unfolding total
wake_built-WokenBuilt [] = ground arith
wake_built-WokenBuilt (stored b ∷ ts) = ground (arith, wake_built-WokenBuilt ts)
wake_built-WokenBuilt (counted b ∷ ts) = ground (arith, wake_built-WokenBuilt ts)
wake_built-WokenBuilt (t ∷ ts) = ground (arith, wake_built-WokenBuilt ts)

pub wake_ptrs-stored : (p : Builder) → is_stored (wake_ptrs p) ≡ is_stored p
wake_ptrs-stored (stored b) = refl
wake_ptrs-stored (counted b) = refl
wake_ptrs-stored p = refl

pub wake_built-stored : (p : Builder) → is_stored (wake_built p) ≡ is_stored p
wake_built-stored (stored b) = refl
wake_built-stored (counted b) = refl
wake_built-stored p = refl
