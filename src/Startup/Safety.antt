-- ===== src/Startup/Safety.antt =====
-- What holds of the start of the workers in every reachable state.
use yaay_rs.Base.{
  ℕ, zero, suc, ◌+◌, ◌≡◌, ◌⊎◌, inl, inr, refl, Bool, true, false, List, [], ◌∷◌, some, get_elem?,
  length, total, total-get, total-complement, arith, ◌≢◌, ◌∙◌, ap,
}
use yaay_rs.Startup.{
  Builder, stored, sleeping_ptrs, linked, counted, checking_built, sleeping_built, built, checking,
  done, Site, all_true, At, SiteReach,
}
use yaay_rs.Startup.Weights.{
  starts, sleeps_ptrs, alerts_ptrs, past_ptrs, counts, sleeps_built, alerts_built, past_built,
  waiter_sleeps,
}
use yaay_rs.Startup.Sums.{all_true-stored}
use yaay_rs.Startup.Invariant.{Reach-Inv, uncounted, counts-uncounted}

-- Past the first wait of `build`.
abbrev pub is_linked : Builder → Bool
is_linked linked = true
is_linked (counted _) = true
is_linked checking_built = true
is_linked sleeping_built = true
is_linked built = true
is_linked _ = false

is_linked-past : (p : Builder) → is_linked p ≡ true → past_ptrs p ≡ 1
is_linked-past (stored b) e = ground arith
is_linked-past (counted b) e = refl
is_linked-past p e = ground arith

-- A builder that reads the pointers of the other workers finds none of them null.
pub linked-all_stored :
    {n : ℕ} {s : Site}
    → SiteReach n s
    → (i : ℕ) (p : Builder) → At s i p
    → is_linked p ≡ true
    → all_true s.ptrs ≡ true
linked-all_stored {n} {s} r i p at e =
    let v = Reach-Inv r in
    ap all_true v.slots
    ∙ ground (
      arith,
      v.all_ptrs,
      all_true-stored s.builders,
      total-get past_ptrs s.builders i p at,
      is_linked-past p e,
    )

-- When `build` has returned on some thread, or `wait` goes on, every builder has written its worker
-- and added itself to `n_built`.
pub built-all_counted :
    {n : ℕ} {s : Site}
    → SiteReach n s
    → (s.waiter ≡ done) ⊎ ((j : ℕ) × At s j built)
    → (i : ℕ) (p : Builder) → At s i p
    → counts p ≡ 1
built-all_counted {n} {s} r past i p at =
    let v = Reach-Inv r in
    let all : s.n_built ≡ n = elim past [
      | inl e ↦ ground (arith, v.all_built)
      | inr (j, at_j) ↦ ground (arith, v.all_built, total-get past_built s.builders j built at_j)
    ] in
    omega (
      arith,
      all,
      v.counted,
      v.sized,
      total-complement counts uncounted s.builders counts-uncounted,
      total-get uncounted s.builders i p at,
      counts-uncounted p,
    )

-- A builder that has no step but the end of a wait, or has returned.
abbrev pub IsResting : Builder → Type 0
IsResting p = (p ≡ sleeping_ptrs) ⊎ ((p ≡ sleeping_built) ⊎ (p ≡ built))

abbrev pub AllRest : List Builder → Type 0
AllRest [] = Unit
AllRest (p ∷ ps) = IsResting p × AllRest ps

AllRest-get :
    (ps : List Builder) (i : ℕ) (p : Builder) → AllRest ps → get_elem? ps i ≡ some p → IsResting p
AllRest-get [] i p rest at = absurd (ground arith)
AllRest-get (q ∷ ps) zero p rest at = let e : q ≡ p = cc in rw (← e) rest.0
AllRest-get (q ∷ ps) (suc i) p rest at = AllRest-get ps i p rest.1 at

record RestSums (ps : List Builder) : Type 0 where
  start : total starts ps ≡ 0
  alert_p : total alerts_ptrs ps ≡ 0
  alert_b : total alerts_built ps ≡ 0
  count : total counts ps + total sleeps_ptrs ps ≡ length ps

AllRest-RestSums : (ps : List Builder) → AllRest ps → RestSums ps
unfolding total
AllRest-RestSums [] rest = ground arith
AllRest-RestSums (p ∷ ps) rest = elim rest.0 [
  | inl e ↦ rw e (ground (arith, AllRest-RestSums ps rest.1))
  | inr (inl e) ↦ rw e (ground (arith, AllRest-RestSums ps rest.1))
  | inr (inr e) ↦ rw e (ground (arith, AllRest-RestSums ps rest.1))
]

-- No deadlock: when no thread has a step but the end of a wait, every `build` has returned and the
-- main thread goes on.
pub start-no_deadlock :
    {n : ℕ} {s : Site}
    → SiteReach n s
    → AllRest s.builders
    → s.waiter ≢ checking
    → (s.waiter ≡ done) × ((i : ℕ) (p : Builder) → At s i p → p ≡ built)
start-no_deadlock {n} {s} r rest looked =
    let v = Reach-Inv r in
    let sums = AllRest-RestSums s.builders rest in
    let awake : total sleeps_ptrs s.builders ≡ 0 = ground (arith, v.asleep_ptrs, sums) in
    let all : s.n_built ≡ n = omega (arith, v.counted, v.sized, sums.count, awake) in
    let quiet : total sleeps_built s.builders + waiter_sleeps s.waiter ≡ 0 =
      ground (arith, v.asleep_built, sums) in
    (
      ground arith,
      λ i p at. elim (AllRest-get s.builders i p rest at) [
        | inl e ↦ absurd (ground (arith, total-get sleeps_ptrs s.builders i p at))
        | inr (inl e) ↦ absurd (ground (arith, total-get sleeps_built s.builders i p at))
        | inr (inr e) ↦ e
      ],
    )
