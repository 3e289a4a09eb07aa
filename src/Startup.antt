-- ===== src/Startup.antt =====
-- The start of the workers (yaay-mt-runtime/src/worker_manager.rs): `WorkerBuilder::build` on every
-- worker thread and `WorkerManager::wait` on the main thread, a critical section at a time.
mod Weights
mod Sums
mod Invariant
pub mod Safety
pub mod Examples
use yaay_rs.Base.{
  ℕ, zero, suc, ◌+◌, ◌≡◌, Bool, true, false, ◌&&◌, ◌==◌, List, [], ◌∷◌, map, some, get_elem?, set,
  length, fill,
}

-- Where a builder stands in `build`.
pub data Builder : Type 0 where
  start : Builder
  stored : (flag : Bool) → Builder  -- its pointer is stored, and the lock dropped
  checking_ptrs : Builder  -- before the test of `while`, with the lock or about to take it
  sleeping_ptrs : Builder  -- in `worker_ptrs_cond.wait`
  linked : Builder  -- it has `other_workers`
  counted : (flag : Bool) → Builder  -- `n_built` is incremented, and the lock dropped
  checking_built : Builder
  sleeping_built : Builder  -- in `n_built_cond.wait`
  built : Builder  -- `build` has returned

-- Where the main thread stands in `wait`.
pub data Waiter : Type 0 where
  checking : Waiter
  sleeping : Waiter
  done : Waiter  -- it goes on to make `RuntimeSharedData`

-- `WorkerManagerData`, with all threads; `ptrs` says which pointers are not null.
pub record Site : Type 0 where
  pub ptrs : List Bool
  pub n_built : ℕ
  pub builders : List Builder
  pub waiter : Waiter

-- `guard.iter_mut().all(|x| !x.is_null())`
abbrev pub all_true : List Bool → Bool
all_true [] = true
all_true (b ∷ bs) = b && all_true bs

-- `worker_ptrs_cond.notify_all()`, for one thread
abbrev pub wake_ptrs : Builder → Builder
wake_ptrs sleeping_ptrs = checking_ptrs
wake_ptrs p = p

-- `n_built_cond.notify_all()`, for one thread
abbrev pub wake_built : Builder → Builder
wake_built sleeping_built = checking_built
wake_built p = p

abbrev pub wake_waiter : Waiter → Waiter
wake_waiter sleeping = checking
wake_waiter w = w

-- Builder `i` goes to `q`.
abbrev pub go : Site → ℕ → Builder → Site
go s i q = record s { builders = set s.builders i q }

abbrev pub At : Site → ℕ → Builder → Type 0
At s i p = get_elem? s.builders i ≡ some p

-- One critical section, one `notify_all`, or the end of a wait with no notice.
pub data SiteStep (s : Site) : Site → Type 0 where
  store :
      (i : ℕ)
      → At s i start
      → SiteStep s
          (record (go s i (stored (all_true (set s.ptrs i true)))) { ptrs = set s.ptrs i true })
  notify_ptrs :
      (i : ℕ)
      → At s i (stored true)
      → SiteStep s (record s { builders = set (map wake_ptrs s.builders) i linked })
  skip_ptrs : (i : ℕ) → At s i (stored false) → SiteStep s (go s i checking_ptrs)
  pass_ptrs : (i : ℕ) → At s i checking_ptrs → all_true s.ptrs ≡ true → SiteStep s (go s i linked)
  wait_ptrs :
      (i : ℕ) → At s i checking_ptrs → all_true s.ptrs ≡ false → SiteStep s (go s i sleeping_ptrs)
  rouse_ptrs : (i : ℕ) → At s i sleeping_ptrs → SiteStep s (go s i checking_ptrs)
  count :
      (i : ℕ)
      → At s i linked
      → SiteStep s (record (go s i (counted ((s.n_built + 1) == length s.builders))) {
        n_built = s.n_built + 1;
      })
  notify_built :
      (i : ℕ)
      → At s i (counted true)
      → SiteStep s (record s {
        builders = set (map wake_built s.builders) i built;
        waiter = wake_waiter s.waiter;
      })
  skip_built : (i : ℕ) → At s i (counted false) → SiteStep s (go s i checking_built)
  pass_built :
      (i : ℕ)
      → At s i checking_built
      → (s.n_built == length s.builders) ≡ true
      → SiteStep s (go s i built)
  wait_built :
      (i : ℕ)
      → At s i checking_built
      → (s.n_built == length s.builders) ≡ false
      → SiteStep s (go s i sleeping_built)
  rouse_built : (i : ℕ) → At s i sleeping_built → SiteStep s (go s i checking_built)
  waiter_pass :
      s.waiter ≡ checking
      → (s.n_built == length s.builders) ≡ true
      → SiteStep s (record s { waiter = done })
  waiter_wait :
      s.waiter ≡ checking
      → (s.n_built == length s.builders) ≡ false
      → SiteStep s (record s { waiter = sleeping })
  waiter_rouse : s.waiter ≡ sleeping → SiteStep s (record s { waiter = checking })

-- `WorkerManager::new`, with the threads of `n` builders
abbrev pub init_site : ℕ → Site
init_site n = record {
  ptrs = fill false n;
  n_built = 0;
  builders = fill start n;
  waiter = checking;
}

pub data SiteReach (n : ℕ) : Site → Type 0 where
  begin : SiteReach n (init_site n)
  later : {s t : Site} → SiteReach n s → SiteStep s t → SiteReach n t
