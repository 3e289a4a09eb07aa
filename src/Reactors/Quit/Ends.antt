-- ===== src/Reactors/Quit/Ends.antt =====
-- `mio_shutdown` returns, and the reactor threads have ended by then.
use yaay_rs.Base.{
  ℕ, ◌+◌, ◌-◌, ◌≤◌, ◌<◌, ◌≡◌, ◌≢◌, inl, inr, refl, sym, ap, ◌∙◌, Bool, true, false, Bool-cases,
  List, some, get_elem?, set, length, length-fill, get_elem?-set_ne, total, total-set, length-set,
  get_elem?-of_lt, lt_of_get_elem?, arith, ℕ_discrete,
}
use yaay_rs.Reactors.Quit.{
  Place, testing, serving, leaving, ended, Quitter, setting, joining, returned, Quit, At, go,
  QuitStep, QuitReach, start, later,
}

abbrev has_set : Quitter → Bool
has_set setting = false
has_set q = true

has_set-called : (q : Quitter) → q ≢ setting → has_set q ≡ true
has_set-called q ne = ground arith

-- How many threads are joined.
abbrev joined : ℕ → Quitter → ℕ
joined n setting = 0
joined n (joining i) = i
joined n returned = n

record Inv (n : ℕ) (s : Quit) : Type 0 where
  sized : length s.reactors ≡ n
  flagged : s.flag ≡ has_set s.quitter
  within : joined n s.quitter ≤ n
  past : (j : ℕ) → j < joined n s.quitter → At s j ended

-- A thread that has not ended moves; the others stay.
go-Inv :
    {n : ℕ} {s : Quit} (i : ℕ) (p q : Place) → Inv n s → At s i p → p ≢ ended → Inv n (go s i q)
go-Inv {n} {s} i p q v at ne = record {
  sized = length-set s.reactors i q ∙ v.sized;
  flagged = v.flagged;
  within = v.within;
  past = λ j lt. elim (ℕ_discrete j i) [
    | yes eq ↦
        let there : At s i ended = rw (← eq) (v.past j lt) in
        let clash : p ≡ ended = cc (at, there) in absurd (ne clash)
    | no away ↦ get_elem?-set_ne s.reactors i j q away ∙ v.past j lt
  ];
}

Step-Inv : {n : ℕ} {s t : Quit} → Inv n s → QuitStep s t → Inv n t
Step-Inv {n} {s} v (QuitStep.test_clear i at e) = go-Inv i testing serving v at (λ eq. ground arith)
Step-Inv {n} {s} v (QuitStep.test_set i at e) = go-Inv i testing leaving v at (λ eq. ground arith)
Step-Inv {n} {s} v (QuitStep.serve i at) = go-Inv i serving testing v at (λ eq. ground arith)
Step-Inv {n} {s} v (QuitStep.leave i at) = go-Inv i leaving ended v at (λ eq. ground arith)
Step-Inv {n} {s} v (QuitStep.store e) = record {
  sized = v.sized;
  flagged = refl;
  within = omega arith;
  past = λ j lt. absurd (omega (arith, lt));
}
Step-Inv {n} {s} v (QuitStep.join {i} e at) = record {
  sized = v.sized;
  flagged = v.flagged ∙ ap has_set e;
  within = omega (arith, v.sized, lt_of_get_elem? s.reactors i ended at);
  past = λ j lt. elim (ℕ_discrete j i) [
    | yes eq ↦ rw eq at
    | no ne ↦ v.past j (rw e (omega (arith, lt, ne)))
  ];
}
Step-Inv {n} {s} v (QuitStep.finish {i} e all) = record {
  sized = v.sized;
  flagged = v.flagged ∙ ap has_set e;
  within = omega arith;
  past = λ j lt. v.past j (rw e (omega (arith, lt, all, v.sized)));
}

Reach-Inv : {n : ℕ} {s : Quit} → QuitReach n s → Inv n s
Reach-Inv {n} start = record {
  sized = length-fill testing n;
  flagged = refl;
  within = omega arith;
  past = λ j lt. absurd (omega (arith, lt));
}
Reach-Inv (later r st) = Step-Inv (Reach-Inv r) st

-- Nothing can move.
abbrev pub Stuck : Quit → Type 0
Stuck s = (t : Quit) → QuitStep s t → ⊥

Stuck-ended : (s : Quit) (i : ℕ) (p : Place) → Stuck s → At s i p → p ≡ ended
Stuck-ended s i testing stuck at = elim (Bool-cases s.flag) [
  | inl e ↦ absurd (stuck _ (QuitStep.test_set i at e))
  | inr e ↦ absurd (stuck _ (QuitStep.test_clear i at e))
]
Stuck-ended s i serving stuck at = absurd (stuck _ (QuitStep.serve i at))
Stuck-ended s i leaving stuck at = absurd (stuck _ (QuitStep.leave i at))
Stuck-ended s i ended stuck at = refl

Stuck-returned : {n : ℕ} (s : Quit) (q : Quitter) → Inv n s → Stuck s → s.quitter ≡ q → q ≡ returned
Stuck-returned s setting v stuck e = absurd (stuck _ (QuitStep.store e))
Stuck-returned {n} s (joining i) v stuck e = elim (ℕ_discrete i n) [
  | yes eq ↦ absurd (stuck _ (QuitStep.finish e (eq ∙ sym v.sized)))
  | no ne ↦
      let le : i ≤ n = rw (← ap (joined n) e) v.within in
      let (p, at) = get_elem?-of_lt s.reactors i (omega (arith, v.sized, ne, le)) in
      absurd (stuck _ (QuitStep.join e (rw (← Stuck-ended s i p stuck at) at)))
]
Stuck-returned s returned v stuck e = refl

-- The steps that a thread has before it once the flag is set.
abbrev pub rank : Place → ℕ
rank testing = 2
rank serving = 3
rank leaving = 1
rank ended = 0

abbrev pub quitter_rank : ℕ → Quitter → ℕ
quitter_rank n setting = n + 2
quitter_rank n (joining i) = n - i + 1
quitter_rank n returned = 0

abbrev pub steps_left : Quit → ℕ
steps_left s = total rank s.reactors + quitter_rank (length s.reactors) s.quitter

rank-go :
    (ps : List Place) (i : ℕ) (p q : Place) (c : Quitter)
    → get_elem? ps i ≡ some p
    → rank q < rank p
    → total rank (set ps i q) + quitter_rank (length (set ps i q)) c
      < total rank ps + quitter_rank (length ps) c
rank-go ps i p q c at lt = rw (length-set ps i q) (omega (arith, total-set rank ps i p q at))

-- Once SHUTDOWN is set, every step leaves fewer steps to come.
quit-steps_left : {s t : Quit} → s.flag ≡ true → QuitStep s t → steps_left t < steps_left s
quit-steps_left {s} set (QuitStep.test_clear i at e) = absurd (ground arith)
quit-steps_left {s} set (QuitStep.test_set i at e) =
    rank-go s.reactors i testing leaving s.quitter at (omega arith)
quit-steps_left {s} set (QuitStep.serve i at) =
    rank-go s.reactors i serving testing s.quitter at (omega arith)
quit-steps_left {s} set (QuitStep.leave i at) =
    rank-go s.reactors i leaving ended s.quitter at (omega arith)
quit-steps_left {s} set (QuitStep.store e) = omega (arith, ap (quitter_rank (length s.reactors)) e)
quit-steps_left {s} set (QuitStep.join {i} e at) =
    omega (arith, ap (quitter_rank (length s.reactors)) e, lt_of_get_elem? s.reactors i ended at)
quit-steps_left {s} set (QuitStep.finish e all) =
    omega (arith, ap (quitter_rank (length s.reactors)) e)

-- `mio_shutdown` ends, for any number of reactor threads: when nothing can move, it has returned; when it
-- has returned, SHUTDOWN is set and all reactor threads have ended; and once it has called
-- `set_shutdown`, every step, of any thread, leaves fewer steps to come.
pub quit-ends :
    {n : ℕ} {s : Quit}
    → QuitReach n s
    → (Stuck s → s.quitter ≡ returned)
      × (s.quitter ≡ returned → (s.flag ≡ true) × ((i : ℕ) → i < n → At s i ended))
      × (s.quitter ≢ setting → (t : Quit) → QuitStep s t → steps_left t < steps_left s)
quit-ends {n} {s} r =
    let v = Reach-Inv r in
    (
      λ stuck. Stuck-returned s s.quitter v stuck refl,
      λ e. (v.flagged ∙ ap has_set e, λ i lt. v.past i (rw e lt)),
      λ set t st. quit-steps_left (v.flagged ∙ has_set-called s.quitter set) st,
    )
