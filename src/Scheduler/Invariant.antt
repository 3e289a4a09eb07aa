-- ===== src/Scheduler/Invariant.antt =====
-- The status word counts the ticks and the active workers, and every worker's locals stay true.
mod Moves
mod Others
use Moves.{Move-Word, Move-Fact, Move-Grows}
use Others.{
  Fact-unpark, bump-Grows, push-Grows, announce-Grows, announce-Word, unpark-Grows, wait-Grows,
  active-unpark, alarm-unpark,
}
pub use Others.{active-or_idle}
pub use Moves.{active, idle, alarm, Sums, Word}
use yaay_rs.Base.{
  ℕ, zero, suc, ◌+◌, ◌%◌, ◌^◌, ◌*◌, ◌≤◌, ◌<◌, ◌≡◌, refl, List, [], ◌∷◌, some, map, get_elem?, set,
  length, total, total-set, total-get, total-map, total-complement, length-set, length-map,
  get_elem?-set_self, get_elem?-set_ne, get_elem?-map, ℕ_discrete, arith, sym, ◌∙◌,
}
use yaay_rs.Scheduler.Machine.{
  Mem, Pc, draining, polling, waking, unpark, Move, System, Step, work, worker_wakes, first_push,
  next_push, announce, announce_nothing, pusher_wakes, wait, AllDraining, init_mem, Reach, start,
  later,
}
use yaay_rs.Scheduler.Facts.{Fact, Grows, Fact-Grows}

-- The threads that are about to wake the sleepers.
abbrev pub alarms : Mem → List Pc → ℕ
alarms m ws = m.wakers + total alarm ws

abbrev pub Facts : ℕ → Mem → ℕ → List Pc → Type 0
Facts n m b ws = (w : ℕ) (p : Pc) → get_elem? ws w ≡ some p → Fact n m b w p

pub record Inv (n : ℕ) (m : Mem) (ws : List Pc) : Type 0 where
  pub sized : length ws ≡ n
  pub word : Word m ws
  pub facts : Facts n m (alarms m ws) ws

set-Sums :
    (n : ℕ) (ts : List Pc) (w : ℕ) (p q : Pc)
    → length ts ≡ n
    → get_elem? ts w ≡ some p
    → Sums n ts (set ts w q) p q
set-Sums n ts w p q size at = record {
  actives = total-set active ts w p q at;
  alarms = total-set alarm ts w p q at;
  own_active = total-get active ts w p at;
  own_idle = total-get idle ts w p at;
  before = total-complement active idle ts active-or_idle ∙ size;
  after =
      omega (arith, total-complement active idle (set ts w q) active-or_idle, length-set ts w q);
}

-- After a step that leaves the workers where they are.
same-Inv :
    {n : ℕ} {m m' : Mem} {ws : List Pc}
    → Inv n m ws
    → Word m' ws
    → ((w : ℕ) → Grows m m' (alarms m ws) (alarms m' ws) w)
    → Inv n m' ws
same-Inv {n} v word g = record {
  sized = v.sized;
  word = word;
  facts = λ w p at. Fact-Grows n p (g w) (v.facts w p at);
}

module _ {n max : ℕ} (few : n < 512) (short : max < 2 ^ 23) where
  work-Inv :
      {m m' : Mem} {ws : List Pc} {p q : Pc} (w : ℕ)
      → get_elem? ws w ≡ some p
      → Move n max m w p m' q
      → Inv n m ws
      → Inv n m' (set ws w q)
  work-Inv {m} {m'} {ws} {p} {q} w at mv v =
      let s = set-Sums n ws w p q v.sized at in
      record {
        sized = length-set ws w q ∙ v.sized;
        word = Move-Word w few v.word mv s;
        facts = λ j r at_j. elim (ℕ_discrete j w) [
          | yes e ↦
              let e_r : q ≡ r = cc (get_elem?-set_self ws w p q at) in
              rw (e, ← e_r) (Move-Fact w few v.word _ _ short mv s (v.facts w p at))
          | no ne ↦
              let before : get_elem? ws j ≡ some r = sym (get_elem?-set_ne ws w j q ne) ∙ at_j in
              Fact-Grows n r (Move-Grows w few v.word j ne mv s) (v.facts j r before)
        ];
      }

unpark-Facts :
    (n : ℕ) (m : Mem) (b b' : ℕ) (ws : List Pc) → Facts n m b ws → Facts n m b' (map unpark ws)
unpark-Facts n m b b' ws facts w p at =
    let (x, at_x, e) = get_elem?-map unpark ws w p at in
    rw e (Fact-unpark n m b b' w x (facts w x at_x))

polling-Facts :
    (n : ℕ) (m : Mem) (b : ℕ) (ws : List Pc) (w : ℕ)
    → get_elem? ws w ≡ some waking
    → Facts n m b ws
    → Facts n m b (set ws w polling)
polling-Facts n m b ws w at facts j r at_j = elim (ℕ_discrete j w) [
  | yes e ↦ let e_r : polling ≡ r = cc (get_elem?-set_self ws w waking polling at) in rw (← e_r) tt
  | no ne ↦ facts j r (sym (get_elem?-set_ne ws w j polling ne) ∙ at_j)
]

worker_wakes-Inv :
    {n : ℕ} {m : Mem} {ws : List Pc} (w : ℕ)
    → get_elem? ws w ≡ some waking
    → Inv n m ws
    → Inv n m (map unpark (set ws w polling))
worker_wakes-Inv {n} {m} {ws} w at v = record {
  sized = length-map unpark (set ws w polling) ∙ (length-set ws w polling ∙ v.sized);
  word = omega (
    arith,
    v.word,
    total-map active unpark (set ws w polling) active-unpark,
    total-set active ws w waking polling at,
  );
  facts = unpark-Facts n m _ _ _ (polling-Facts n m _ ws w at v.facts);
}

pusher_wakes-Inv :
    {n : ℕ} {m : Mem} {ws : List Pc} (x : ℕ)
    → Inv n m ws
    → Inv n (record m { wakers = x }) (map unpark ws)
pusher_wakes-Inv {n} {m} {ws} x v = record {
  sized = length-map unpark ws ∙ v.sized;
  word = omega (arith, v.word, total-map active unpark ws active-unpark);
  facts = λ w p at. Fact-Grows n p (unpark-Grows m x _ w) (unpark-Facts n m _ 0 ws v.facts w p at);
}

active-lt : {n : ℕ} {m : Mem} {ws : List Pc} → n < 512 → Inv n m ws → total active ws < 512
active-lt {ws} few v = omega (arith, v.sized, total-complement active idle ws active-or_idle)

draining-all : (ws : List Pc) → AllDraining ws → total active ws ≡ length ws
unfolding total
draining-all [] h = refl
draining-all (p ∷ ws) h = rw h.0 (omega (arith, draining-all ws h.1))

draining-get :
    (ws : List Pc) (w : ℕ) (p : Pc) → AllDraining ws → get_elem? ws w ≡ some p → p ≡ draining
draining-get [] w p h at = absurd (ground arith)
draining-get (q ∷ ws) zero p h at = ground arith
draining-get (q ∷ ws) (suc w) p h at = draining-get ws w p h.1 at

draining-Facts :
    (n b w : ℕ) (m : Mem) (p : Pc) (ws : List Pc)
    → AllDraining ws
    → get_elem? ws w ≡ some p
    → Fact n m b w p
draining-Facts n b w m p ws fresh at = rw (draining-get ws w p fresh at) tt

init-Inv : {n : ℕ} (ws : List Pc) → AllDraining ws → length ws ≡ n → n < 512 → Inv n (init_mem n) ws
init-Inv {n} ws fresh size few = record {
  sized = size;
  word = omega (arith, draining-all ws fresh, size);
  facts = λ w p at. draining-Facts n _ w _ p ws fresh at;
}

module _ {n max : ℕ} (few : n < 512) (short : max < 2 ^ 23) where
  -- Every step keeps the invariant.
  pub Step-Inv : {s t : System} → Step n max s t → Inv n s.mem s.workers → Inv n t.mem t.workers
  Step-Inv (work w at mv) v = work-Inv few short w at mv v
  Step-Inv (worker_wakes w at) v = worker_wakes-Inv w at v
  Step-Inv {s} (first_push i) v =
      same-Inv v v.word (λ w. push-Grows s.mem i _ _ w (omega arith) (omega arith))
  Step-Inv {s} (next_push i dirty) v =
      same-Inv v v.word (λ w. push-Grows s.mem i s.mem.pushers _ w dirty (omega arith))
  Step-Inv {s} (announce more dirty) v =
      same-Inv v (announce-Word s.mem more s.workers (active-lt few v) v.word)
        (λ w. announce-Grows s.mem more _ _ w)
  Step-Inv {s} (announce_nothing more) v =
      same-Inv v (announce-Word s.mem more s.workers (active-lt few v) v.word)
        (λ w. bump-Grows s.mem more _ w)
  Step-Inv (pusher_wakes loud) v = pusher_wakes-Inv _ v
  Step-Inv {s} (wait d) v = same-Inv v v.word (λ w. wait-Grows s.mem d _ w)

  pub Reach-Inv : {s : System} → Reach n max s → Inv n s.mem s.workers
  Reach-Inv (start ws fresh size) = init-Inv ws fresh size few
  Reach-Inv (later r st) = Step-Inv st (Reach-Inv r)
