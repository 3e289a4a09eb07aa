-- ===== src/Reactors/Safety.antt =====
-- What holds of the start of the reactor threads in every reachable state.
use yaay_rs.Base.{
  ℕ, zero, suc, ◌+◌, ◌≡◌, ◌≢◌, ◌⊎◌, inl, inr, refl, true, List, [], ◌∷◌, some, get_elem?, total,
  total-get, arith, ◌∙◌, ap,
}
use yaay_rs.Startup.{all_true}
use yaay_rs.Reactors.{Thread, sleeping, running, looking, made, Boot, At, BootReach}
use yaay_rs.Reactors.Invariant.{
  starts, sleeps, alerts, pasts, main_sleeps, all_true-stored, Reach-Inv,
}

-- When the thread that builds the reactors collects `locals`, or a reactor thread enters its event loop,
-- no pointer is null.
pub made-all_stored :
    {n : ℕ} {s : Boot}
    → BootReach n s
    → (s.main ≡ made) ⊎ ((i : ℕ) × At s i running)
    → all_true s.ptrs ≡ true
made-all_stored {n} {s} r past =
    let v = Reach-Inv r in
    let all : total starts s.threads ≡ 0 = elim past [
      | inl e ↦ ground (arith, v.all_stored)
      | inr (i, at) ↦ ground (arith, v.all_stored, total-get pasts s.threads i running at)
    ] in
    ap all_true v.slots ∙ ground (arith, all_true-stored s.threads)

-- A thread that has no step but the end of a wait, or is in its event loop.
abbrev pub IsResting : Thread → Type 0
IsResting p = (p ≡ sleeping) ⊎ (p ≡ running)

abbrev pub AllRest : List Thread → Type 0
AllRest [] = Unit
AllRest (p ∷ ps) = IsResting p × AllRest ps

AllRest-get :
    (ps : List Thread) (i : ℕ) (p : Thread) → AllRest ps → get_elem? ps i ≡ some p → IsResting p
AllRest-get [] i p rest at = absurd (ground arith)
AllRest-get (q ∷ ps) zero p rest at = let e : q ≡ p = cc in rw (← e) rest.0
AllRest-get (q ∷ ps) (suc i) p rest at = AllRest-get ps i p rest.1 at

AllRest-totals : (ps : List Thread) → AllRest ps → (total starts ps ≡ 0) × (total alerts ps ≡ 0)
unfolding total
AllRest-totals [] rest = (refl, refl)
AllRest-totals (p ∷ ps) rest = elim rest.0 [
  | inl e ↦ rw e (ground (arith, AllRest-totals ps rest.1))
  | inr e ↦ rw e (ground (arith, AllRest-totals ps rest.1))
]

-- No deadlock: when no thread has a step but the end of a wait, `build` goes on to return, and every
-- reactor thread is in its event loop.
pub boot-no_deadlock :
    {n : ℕ} {s : Boot}
    → BootReach n s
    → AllRest s.threads
    → s.main ≢ looking
    → (s.main ≡ made) × ((i : ℕ) (p : Thread) → At s i p → p ≡ running)
boot-no_deadlock {n} {s} r rest looked =
    let v = Reach-Inv r in
    let none_left = AllRest-totals s.threads rest in
    let awake : total sleeps s.threads + main_sleeps s.main ≡ 0 =
      ground (arith, v.asleep, none_left) in
    (
      ground arith,
      λ i p at. elim (AllRest-get s.threads i p rest at) [
        | inl e ↦ absurd (ground (arith, total-get sleeps s.threads i p at))
        | inr e ↦ e
      ],
    )
