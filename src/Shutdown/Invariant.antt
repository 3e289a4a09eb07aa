-- ===== src/Shutdown/Invariant.antt =====
-- What every interleaving of the workers and the caller keeps.
use yaay_rs.Base.{
  ℕ, zero, suc, ◌+◌, ◌≤◌, ◌<◌, ◌≡◌, ◌≢◌, refl, Bool, true, false, List, [], ◌∷◌, ◌==◌,
  if◌then◌else◌, some, get_elem?, set, length, total, total-set, total-get, length-set, length-fill,
  fill, ◌-◌, lt_of_get_elem?, get_elem?-set_lt, get_elem?-set_ne, arith, sym, ◌∙◌, ap, ℕ_discrete,
}
use yaay_rs.Worker.Peers.{ids_from, others_from, other_workers}
use yaay_rs.Shutdown.{
  Pc, draining, turning, searching, reading, comparing, found, popped, spreading, pushing,
  announcing, polled, exited, Caller, calling, returned, Halt, raise, store, go, At, HaltStep,
  init_halt, HaltReach, begin, later,
}

abbrev pub has : ℕ → List ℕ → ℕ
has v [] = 0
has v (t ∷ ts) = (if t == v then 1 else 0) + has v ts

-- The worker is to push a `Shutdown` task to `v`, if the flag of `v` is not set before.
abbrev pub reaches : ℕ → Pc → ℕ
reaches v found = 1
reaches v popped = 1
reaches v (spreading rest) = has v rest
reaches v (pushing t rest) = (if t == v then 1 else 0) + has v rest
reaches v _ = 0

abbrev pub calls : ℕ → Caller → ℕ
calls v (calling rest) = has v rest
calls v returned = 0

-- The worker has set its flag.
abbrev pub is_told : Pc → Bool
is_told (spreading rest) = true
is_told (pushing t rest) = true
is_told announcing = true
is_told polled = true
is_told exited = true
is_told _ = false

pub record Inv (n : ℕ) (s : Halt) : Type 0 where
  pub sized : length s.workers ≡ n
  pub told : (i : ℕ) (p : Pc) → At s i p → s.flags i ≡ is_told p
  pub covered :
      (v : ℕ)
      → v < n
      → s.flags v ≡ false
      → 1 ≤ s.queues v + total (reaches v) s.workers + calls v s.caller

has-ids_from : (v i n : ℕ) → i ≤ v → v < i + n → 1 ≤ has v (ids_from i n)
unfolding ids_from
has-ids_from v i zero le lt = absurd (omega arith)
has-ids_from v i (suc n) le lt = ground (arith, has-ids_from v (i + 1) n)

has-others_from :
    (v w i n : ℕ) → i ≤ v → v < i + n → v ≢ w → 1 ≤ has v (others_from i w (ids_from i n))
unfolding ids_from others_from
has-others_from v w i zero le lt ne = absurd (omega arith)
has-others_from v w i (suc n) le lt ne = ground (arith, has-others_from v w (i + 1) n)

has-other_workers : (v w n : ℕ) → v < n → v ≢ w → 1 ≤ has v (other_workers n w)
unfolding other_workers
has-other_workers v w n lt ne = has-others_from v w 0 n (omega arith) (omega arith) ne

-- A step of worker `i` that sets no flag.
told-go :
    {n : ℕ} {s : Halt} (v : Inv n s) (i : ℕ) (p q : Pc)
    → At s i p
    → is_told q ≡ is_told p
    → (j : ℕ) (r : Pc) → get_elem? (set s.workers i q) j ≡ some r
    → s.flags j ≡ is_told r
told-go {n} {s} v i p q at same j r at_j = elim (ℕ_discrete j i) [
  | yes e ↦
      let e_r : q ≡ r = cc (get_elem?-set_lt s.workers i q (lt_of_get_elem? s.workers i p at)) in
      rw (e, ← e_r, same) (v.told i p at)
  | no ne ↦ v.told j r (sym (get_elem?-set_ne s.workers i j q ne) ∙ at_j)
]

told-raise :
    {n : ℕ} {s : Halt} (v : Inv n s) (i : ℕ) (p q : Pc)
    → At s i p
    → is_told q ≡ true
    → (j : ℕ) (r : Pc) → get_elem? (set s.workers i q) j ≡ some r
    → raise s.flags i j ≡ is_told r
told-raise {n} {s} v i p q at same j r at_j = elim (ℕ_discrete j i) [
  | yes e ↦
      let e_r : q ≡ r = cc (get_elem?-set_lt s.workers i q (lt_of_get_elem? s.workers i p at)) in
      rw (e, ← e_r, same) (ground arith)
  | no ne ↦
      let old = v.told j r (sym (get_elem?-set_ne s.workers i j q ne) ∙ at_j) in ground (arith, old)
]

-- Worker `i` takes a task from the queue of `j`.
take-Inv :
    {n : ℕ} {s : Halt} (i j : ℕ) (p q : Pc)
    → Inv n s
    → At s i p
    → is_told q ≡ is_told p
    → ((u : ℕ) → (reaches u p ≡ 0) × (reaches u q ≡ 1))
    → 0 < s.queues j
    → Inv n (record (go s i q) { queues = store s.queues j (s.queues j - 1) })
take-Inv {n} {s} i j p q v at same took some_task = record {
  sized = length-set s.workers i q ∙ v.sized;
  told = told-go v i p q at same;
  covered =
      λ u lt unset. ground (arith, v.covered u, total-set (reaches u) s.workers i p q at, took u);
}

-- Worker `i` goes on, with or without a task in its hands.
move-Inv :
    {n : ℕ} {s : Halt} (i : ℕ) (p q : Pc) (active epoch : ℕ)
    → Inv n s
    → At s i p
    → is_told q ≡ is_told p
    → ((u : ℕ) → reaches u q ≡ reaches u p)
    → Inv n (record (go s i q) { active = active; epoch = epoch })
move-Inv {n} {s} i p q active epoch v at same kept = record {
  sized = length-set s.workers i q ∙ v.sized;
  told = told-go v i p q at same;
  covered = λ u lt unset.
      omega (arith, v.covered u lt unset, total-set (reaches u) s.workers i p q at, kept u);
}

Step-Inv : {n : ℕ} {s t : Halt} → HaltStep s t → Inv n s → Inv n t
Step-Inv (HaltStep.pop i at task) v =
    take-Inv i i draining popped v at refl (λ u. (refl, refl)) task
Step-Inv {s = s} (HaltStep.drained i at e) v =
    move-Inv i draining turning s.active s.epoch v at refl (λ u. refl)
Step-Inv {s = s} (HaltStep.turn i at) v =
    move-Inv i turning (searching s.epoch (s.active - 1)) (s.active - 1) s.epoch v at refl
      (λ u. refl)
Step-Inv (HaltStep.steal i j {e} {a} at some_active ne task) v =
    take-Inv i j (searching e a) found v at refl (λ u. (refl, refl)) task
Step-Inv {s = s} (HaltStep.steal_none i {e} {a} at some_active) v =
    move-Inv i (searching e a) (reading e) s.active s.epoch v at refl (λ u. refl)
Step-Inv (HaltStep.pop_last i {e} {a} at none_active task) v =
    take-Inv i i (searching e a) found v at refl (λ u. (refl, refl)) task
Step-Inv {s = s} (HaltStep.wait i {e} {a} at none_active no_task) v =
    move-Inv i (searching e a) (reading e) s.active s.epoch v at refl (λ u. refl)
Step-Inv {s = s} (HaltStep.read i {e} at) v =
    move-Inv i (reading e) (comparing e s.epoch s.active) s.active s.epoch v at refl (λ u. refl)
Step-Inv (HaltStep.pop_newer i {old} {e} {a} at newer task) v =
    take-Inv i i (comparing old e a) found v at refl (λ u. (refl, refl)) task
Step-Inv {s = s} (HaltStep.newer_empty i {old} {e} {a} at newer no_task) v =
    move-Inv i (comparing old e a) (searching e a) s.active s.epoch v at refl (λ u. refl)
Step-Inv {s = s} (HaltStep.not_newer i {old} {e} {a} at older) v =
    move-Inv i (comparing old e a) (searching e a) s.active s.epoch v at refl (λ u. refl)
Step-Inv {s = s} (HaltStep.resume i at) v =
    move-Inv i found popped (s.active + 1) s.epoch v at refl (λ u. refl)
Step-Inv {n} {s} (HaltStep.store_flag i at) v = record {
  sized = length-set s.workers i _ ∙ v.sized;
  told = told-raise v i popped _ at refl;
  covered = λ u lt unset.
      let other : u ≢ i = λ e. ground arith in
      let next : Pc = spreading (other_workers (length s.workers) i) in
      omega (
        arith,
        total-set (reaches u) s.workers i popped next at,
        total-get (reaches u) s.workers i popped at,
        has-other_workers u i (length s.workers) (omega (arith, v.sized)) other,
      );
}
Step-Inv {n} {s} (HaltStep.skip i {t} {rest} at set_before) v = record {
  sized = length-set s.workers i (spreading rest) ∙ v.sized;
  told = told-go v i (spreading (t ∷ rest)) (spreading rest) at refl;
  covered = λ u lt unset. elim (ℕ_discrete t u) [
    | yes e ↦ absurd (ground (arith, ap s.flags e))
    | no ne ↦ ground (
      arith,
      v.covered u,
      total-set (reaches u) s.workers i (spreading (t ∷ rest)) (spreading rest) at,
    )
  ];
}
Step-Inv {n} {s} (HaltStep.see i {t} {rest} at unset_before) v = record {
  sized = length-set s.workers i (pushing t rest) ∙ v.sized;
  told = told-go v i (spreading (t ∷ rest)) (pushing t rest) at refl;
  covered = λ u lt unset. ground (
    arith,
    v.covered u,
    total-set (reaches u) s.workers i (spreading (t ∷ rest)) (pushing t rest) at,
  );
}
Step-Inv {n} {s} (HaltStep.push i {t} {rest} at) v = record {
  sized = length-set s.workers i (spreading rest) ∙ v.sized;
  told = told-go v i (pushing t rest) (spreading rest) at refl;
  covered = λ u lt unset.
      ground (
        arith,
        v.covered u,
        total-set (reaches u) s.workers i (pushing t rest) (spreading rest) at,
      );
}
Step-Inv {n} {s} (HaltStep.spread i at) v = record {
  sized = length-set s.workers i announcing ∙ v.sized;
  told = told-go v i (spreading []) announcing at refl;
  covered = λ u lt unset.
      ground (arith, v.covered u, total-set (reaches u) s.workers i (spreading []) announcing at);
}
Step-Inv {n} {s} (HaltStep.announce i at) v = record {
  sized = length-set s.workers i polled ∙ v.sized;
  told = told-go v i announcing polled at refl;
  covered = λ u lt unset.
      ground (arith, v.covered u, total-set (reaches u) s.workers i announcing polled at);
}
Step-Inv {n} {s} (HaltStep.leave i at e) v = record {
  sized = length-set s.workers i exited ∙ v.sized;
  told = told-go v i polled exited at refl;
  covered =
      λ u lt unset. ground (arith, v.covered u, total-set (reaches u) s.workers i polled exited at);
}
Step-Inv {n} {s} (HaltStep.stay i at e) v = absurd (ground (arith, v.told i polled at))
Step-Inv {n} {s} (HaltStep.call {t} {rest} e) v = record {
  sized = v.sized;
  told = v.told;
  covered = λ u lt unset. ground (arith, v.covered u, ap (calls u) e);
}
Step-Inv {n} {s} (HaltStep.called e) v = record {
  sized = v.sized;
  told = v.told;
  covered = λ u lt unset. ground (arith, v.covered u, ap (calls u) e);
}

told-fill : (n i : ℕ) (p : Pc) → get_elem? (fill draining n) i ≡ some p → false ≡ is_told p
told-fill zero i p at = absurd (ground arith)
told-fill (suc n) zero p at = ground arith
told-fill (suc n) (suc i) p at = told-fill n i p at

init-Inv : (n : ℕ) → Inv n (init_halt n)
init-Inv n = record {
  sized = length-fill draining n;
  told = λ i p at. told-fill n i p at;
  covered = λ v lt unset. omega (arith, has-ids_from v 0 n (omega arith) (omega arith));
}

pub Reach-Inv : {n : ℕ} {s : Halt} → HaltReach n s → Inv n s
Reach-Inv {n} begin = init-Inv n
Reach-Inv (later r st) = Step-Inv st (Reach-Inv r)
