-- ===== src/Startup/Invariant.antt =====
-- What every interleaving of the builders and the main thread keeps.
use yaay_rs.Base.{
  ℕ, ◌+◌, ◌-◌, ◌<◌, ◌≡◌, refl, Bool, true, false, ◌==◌, List, map, some, get_elem?, set, length,
  total, total-get, total-complement, arith, sym, length-fill, total-fill, map-fill, map-set,
  map-set_same, map-map_same, get_elem?-mapped, ◌∙◌, ap,
}
use yaay_rs.Startup.{
  Builder, start, stored, checking_ptrs, sleeping_ptrs, linked, counted, checking_built,
  sleeping_built, built, Site, all_true, wake_ptrs, wake_built, SiteStep, init_site, SiteReach,
  begin, later,
}
use yaay_rs.Startup.Weights.{
  starts, sleeps_ptrs, past_ptrs, counts, sleeps_built, past_built, is_stored, Inv,
}
use yaay_rs.Startup.Sums.{
  Sums, set-Sums, all_true-stored, wake_ptrs-WokenPtrs, wake_built-WokenBuilt, wake_ptrs-stored,
  wake_built-stored,
}

abbrev pub uncounted : Builder → ℕ
uncounted p = 1 - counts p

pub counts-uncounted : (p : Builder) → counts p + uncounted p ≡ 1
counts-uncounted (stored b) = refl
counts-uncounted (counted b) = refl
counts-uncounted p = refl

store-Inv :
    {n : ℕ} {s : Site} (b : Bool) (us : List Builder) (ps : List Bool)
    → Inv n s
    → Sums s.builders us start (stored b)
    → ps ≡ map is_stored us
    → b ≡ (total starts us == 0)
    → Inv n (record s { ptrs = ps; builders = us })
store-Inv true us ps v e slots flag = ground arith
store-Inv false us ps v e slots flag = ground arith

count-Inv :
    {n : ℕ} {s : Site} (b : Bool) (us : List Builder)
    → Inv n s
    → Sums s.builders us linked (counted b)
    → map is_stored us ≡ map is_stored s.builders
    → s.n_built < n
    → b ≡ (s.n_built + 1 == n)
    → Inv n (record s { n_built = s.n_built + 1; builders = us })
count-Inv true us v e slots few flag = ground arith
count-Inv false us v e slots few flag = ground arith

-- Every step of every thread keeps the invariant.
Step-Inv : {n : ℕ} {s t : Site} → SiteStep s t → Inv n s → Inv n t
Step-Inv {s} (SiteStep.store i at) v =
    let q : Builder = stored (all_true (set s.ptrs i true)) in
    let slots' : set s.ptrs i true ≡ map is_stored (set s.builders i q) =
      ap (λ ps. set ps i true) v.slots ∙ sym (map-set is_stored s.builders i q) in
    let flag : all_true (set s.ptrs i true) ≡ (total starts (set s.builders i q) == 0) =
      ap all_true slots' ∙ all_true-stored (set s.builders i q) in
    store-Inv (all_true (set s.ptrs i true)) _ _ v (set-Sums s.builders i start q at) slots' flag
Step-Inv {s} (SiteStep.notify_ptrs i at) v =
    let woken : get_elem? (map wake_ptrs s.builders) i ≡ some (stored true) =
      get_elem?-mapped wake_ptrs s.builders i (stored true) at in
    ground (
      arith,
      v,
      wake_ptrs-WokenPtrs s.builders,
      map-map_same is_stored wake_ptrs s.builders wake_ptrs-stored,
      set-Sums (map wake_ptrs s.builders) i (stored true) linked woken,
      map-set_same is_stored (map wake_ptrs s.builders) i (stored true) linked woken refl,
    )
Step-Inv {s} (SiteStep.skip_ptrs i at) v = ground (
  arith,
  set-Sums s.builders i _ checking_ptrs at,
  map-set_same is_stored s.builders i _ checking_ptrs at,
)
Step-Inv {s} (SiteStep.pass_ptrs i at e) v = ground (
  arith,
  set-Sums s.builders i _ linked at,
  map-set_same is_stored s.builders i _ linked at,
  all_true-stored s.builders,
)
Step-Inv {s} (SiteStep.wait_ptrs i at e) v = ground (
  arith,
  set-Sums s.builders i _ sleeping_ptrs at,
  map-set_same is_stored s.builders i _ sleeping_ptrs at,
  all_true-stored s.builders,
)
Step-Inv {s} (SiteStep.rouse_ptrs i at) v = ground (
  arith,
  set-Sums s.builders i _ checking_ptrs at,
  map-set_same is_stored s.builders i _ checking_ptrs at,
)
Step-Inv {n} {s} (SiteStep.count i at) v =
    let b : Bool = (s.n_built + 1) == length s.builders in
    let few : s.n_built < n = ground (
      arith,
      v,
      total-complement counts uncounted s.builders counts-uncounted,
      total-get uncounted s.builders i linked at,
    ) in
    count-Inv b _ v (set-Sums s.builders i linked (counted b) at)
      (map-set_same is_stored s.builders i linked (counted b) at refl) few (ground (arith, v.sized))
Step-Inv {s} (SiteStep.notify_built i at) v =
    let woken : get_elem? (map wake_built s.builders) i ≡ some (counted true) =
      get_elem?-mapped wake_built s.builders i (counted true) at in
    ground (
      arith,
      v,
      wake_built-WokenBuilt s.builders,
      map-map_same is_stored wake_built s.builders wake_built-stored,
      set-Sums (map wake_built s.builders) i (counted true) built woken,
      map-set_same is_stored (map wake_built s.builders) i (counted true) built woken refl,
    )
Step-Inv {s} (SiteStep.skip_built i at) v = ground (
  arith,
  set-Sums s.builders i _ checking_built at,
  map-set_same is_stored s.builders i _ checking_built at,
)
Step-Inv {s} (SiteStep.pass_built i at e) v =
    ground (arith, set-Sums s.builders i _ built at, map-set_same is_stored s.builders i _ built at)
Step-Inv {s} (SiteStep.wait_built i at e) v = ground (
  arith,
  set-Sums s.builders i _ sleeping_built at,
  map-set_same is_stored s.builders i _ sleeping_built at,
)
Step-Inv {s} (SiteStep.rouse_built i at) v = ground (
  arith,
  set-Sums s.builders i _ checking_built at,
  map-set_same is_stored s.builders i _ checking_built at,
)
Step-Inv (SiteStep.waiter_pass e f) v = ground arith
Step-Inv (SiteStep.waiter_wait e f) v = ground arith
Step-Inv (SiteStep.waiter_rouse e) v = ground arith

init-Inv : (n : ℕ) → Inv n (init_site n)
init-Inv n = ground (
  arith,
  length-fill start n,
  sym (map-fill is_stored start n),
  total-fill sleeps_ptrs start n refl,
  total-fill past_ptrs start n refl,
  total-fill counts start n refl,
  total-fill sleeps_built start n refl,
  total-fill past_built start n refl,
)

pub Reach-Inv : {n : ℕ} {s : Site} → SiteReach n s → Inv n s
Reach-Inv {n} begin = init-Inv n
Reach-Inv (later r st) = Step-Inv st (Reach-Inv r)
