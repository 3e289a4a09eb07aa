-- ===== src/PingPong/Keeps.antt =====
-- What every interleaving of the program keeps.
use yaay_rs.Base.{
  ℕ, zero, suc, ◌+◌, ◌^◌, ◌<◌, ◌≤◌, ◌≡◌, ◌∙◌, refl, ap, subst, ◌==◌, List, some, get_elem?, set,
  length, fill, total, total-set, total-le_length, length-set, length-fill, total-fill, sym,
  get_elem?-set_ne, get_elem?-set_self, arith, ℕ_discrete,
}
use yaay_rs.PingPong.{
  unaccepted, sending, done, unspawned, connecting, Pair, Main, spawning, accepting, resting, Game,
  PairStep, put, At, GameStep, new_pair, GameReach, start, later,
}
use yaay_rs.PingPong.Pairs.{Fits, new_pair-Fits, PairStep-Fits}

abbrev pub fresh : Pair → ℕ
fresh p = elim p.pong [ unspawned ↦ 1 | _ ↦ 0 ]

abbrev pub waits : Pair → ℕ
waits p = elim p.ping [ unaccepted ↦ 1 | _ ↦ 0 ]

abbrev pub finished : Pair → ℕ
finished p = elim p.ping [ done ↦ 1 | _ ↦ 0 ]

abbrev pub to_spawn : Main → ℕ
to_spawn (spawning k) = k
to_spawn _ = 0

abbrev pub to_accept : ℕ → Main → ℕ
to_accept n (spawning k) = n
to_accept n (accepting k) = k
to_accept n resting = 0

abbrev pub AllFit : ℕ → List Pair → Type 0
AllFit r ps = (i : ℕ) (p : Pair) → get_elem? ps i ≡ some p → Fits r p

pub record Inv (n r : ℕ) (s : Game) : Type 0 where
  pub sized : length s.pairs ≡ n
  pub fits : AllFit r s.pairs
  pub spawned : total fresh s.pairs ≡ to_spawn s.main
  pub accepted : total waits s.pairs ≡ to_accept n s.main
  pub counted : s.count ≡ total finished s.pairs
  pub ended : s.exited ≡ (s.count == n)

set-AllFit :
    {r : ℕ} (ps : List Pair) (i : ℕ) (p q : Pair)
    → get_elem? ps i ≡ some p
    → AllFit r ps
    → Fits r q
    → AllFit r (set ps i q)
set-AllFit {r} ps i p q at all v j x at_j = elim (ℕ_discrete j i) [
  | yes e ↦
      let there : get_elem? (set ps i q) i ≡ some x =
        subst (λ a. get_elem? (set ps i q) a ≡ some x) e at_j in
      let same : q ≡ x = cc (there, get_elem?-set_self ps i p q at) in rw (← same) v
  | no ne ↦ all j x (cc (at_j, get_elem?-set_ne ps i j q ne))
]

-- How the three counts change with pair `i`.
record Moved (ps : List Pair) (i : ℕ) (p q : Pair) : Type 0 where
  fresh_sum : total fresh (set ps i q) + fresh p ≡ total fresh ps + fresh q
  waits_sum : total waits (set ps i q) + waits p ≡ total waits ps + waits q
  finished_sum : total finished (set ps i q) + finished p ≡ total finished ps + finished q
  sized : length (set ps i q) ≡ length ps
  bounded : total finished (set ps i q) ≤ length (set ps i q)

finished-le : (p : Pair) → finished p ≤ 1
finished-le p = ground arith

set-Moved : (ps : List Pair) (i : ℕ) (p q : Pair) → get_elem? ps i ≡ some p → Moved ps i p q
set-Moved ps i p q at = record {
  fresh_sum = total-set fresh ps i p q at;
  waits_sum = total-set waits ps i p q at;
  finished_sum = total-set finished ps i p q at;
  sized = length-set ps i q;
  bounded = total-le_length finished finished-le (set ps i q);
}

-- A step of a connection is neither a spawn nor an accept nor the count.
PairStep-same :
    {r : ℕ} {p q : Pair}
    → PairStep r p q
    → (fresh q ≡ fresh p) × (waits q ≡ waits p) × (finished q ≡ finished p)
PairStep-same (PairStep.connect e) = ground arith
PairStep-same (PairStep.send e) = ground arith
PairStep-same (PairStep.receive e f) = ground arith
PairStep-same (PairStep.stop e) = ground arith
PairStep-same (PairStep.take e f) = ground arith
PairStep-same (PairStep.answer e) = ground arith
PairStep-same (PairStep.block e) = ground arith

-- The bounds on the number of pairs, for a counter of 32 bits
abbrev pub InRange : ℕ → Type 0
InRange n = (0 < n) × (n < 2 ^ 32)

play-Inv :
    {n r : ℕ} {s : Game} (i : ℕ) (p q : Pair)
    → At s i p
    → PairStep r p q
    → Inv n r s
    → Inv n r (put s i q)
play-Inv {n} {r} {s} i p q at st v =
    let moved = set-Moved s.pairs i p q at in
    let same = PairStep-same st in
    record {
      sized = moved.sized ∙ v.sized;
      fits = set-AllFit s.pairs i p q at v.fits (PairStep-Fits st (v.fits i p at));
      spawned = omega (arith, v.spawned, moved.fresh_sum, same.0);
      accepted = omega (arith, v.accepted, moved.waits_sum, same.1);
      counted = omega (arith, v.counted, moved.finished_sum, same.2);
      ended = v.ended;
    }

Step-Inv : {n r : ℕ} {s t : Game} → InRange n → GameStep n r s t → Inv n r s → Inv n r t
Step-Inv {n} {r} {s} range (GameStep.spawn i {k} {p} on e at new) v =
    let q : Pair = record p { pong = connecting } in
    let moved = set-Moved s.pairs i p q at in
    let fit = v.fits i p at in
    record {
      sized = moved.sized ∙ v.sized;
      fits = set-AllFit s.pairs i p q at v.fits (ground (arith, fit));
      spawned = ground (arith, v.spawned, moved.fresh_sum, ap to_spawn e, new);
      accepted = ground (arith, v.accepted, moved.waits_sum, ap (to_accept n) e);
      counted = omega (arith, v.counted, moved.finished_sum);
      ended = v.ended;
    }
Step-Inv {n} {r} {s} range (GameStep.listen on e) v = record {
  sized = v.sized;
  fits = v.fits;
  spawned = v.spawned ∙ ap to_spawn e;
  accepted = v.accepted ∙ ap (to_accept n) e;
  counted = v.counted;
  ended = v.ended;
}
Step-Inv {n} {r} {s} range (GameStep.accept i {k} {p} on e at new linked) v =
    let q : Pair = record p { ping = sending r } in
    let moved = set-Moved s.pairs i p q at in
    let fit = v.fits i p at in
    record {
      sized = moved.sized ∙ v.sized;
      fits = set-AllFit s.pairs i p q at v.fits (ground (arith, fit));
      spawned = ground (arith, v.spawned, moved.fresh_sum, ap to_spawn e);
      accepted = ground (arith, v.accepted, moved.waits_sum, ap (to_accept n) e, new);
      counted = ground (arith, v.counted, moved.finished_sum, new);
      ended = v.ended;
    }
Step-Inv {n} {r} {s} range (GameStep.rest on e) v = record {
  sized = v.sized;
  fits = v.fits;
  spawned = v.spawned ∙ ap to_spawn e;
  accepted = v.accepted ∙ ap (to_accept n) e;
  counted = v.counted;
  ended = v.ended;
}
Step-Inv range (GameStep.play i {p} {q} on at st) v = play-Inv i p q at st v
Step-Inv {n} {r} {s} range (GameStep.count_up i {p} on at now) v =
    let q : Pair = record p { ping = done } in
    let moved = set-Moved s.pairs i p q at in
    let fit = v.fits i p at in
    record {
      sized = moved.sized ∙ v.sized;
      fits = set-AllFit s.pairs i p q at v.fits (ground (arith, fit));
      spawned = omega (arith, v.spawned, moved.fresh_sum);
      accepted = ground (arith, v.accepted, moved.waits_sum, now);
      counted =
          ground
            (arith, v.counted, moved.finished_sum, now, moved.bounded, moved.sized, v.sized, range);
      ended =
          ground
            (arith, v.counted, moved.finished_sum, now, moved.bounded, moved.sized, v.sized, range);
    }

fill-AllFit : {r : ℕ} (n : ℕ) → AllFit r (fill new_pair n)
fill-AllFit zero i p at = absurd (ground arith)
fill-AllFit {r} (suc n) zero p at = let e : new_pair ≡ p = cc in rw (← e) (new_pair-Fits r)
fill-AllFit (suc n) (suc i) p at = fill-AllFit n i p at

total-all : (w : Pair → ℕ) (n : ℕ) → w new_pair ≡ 1 → total w (fill new_pair n) ≡ n
unfolding total
total-all w zero one = refl
total-all w (suc n) one = omega (arith, one, total-all w n one)

pub Reach-Inv : {n r : ℕ} {s : Game} → InRange n → GameReach n r s → Inv n r s
Reach-Inv {n} {r} range start = record {
  sized = length-fill new_pair n;
  fits = fill-AllFit n;
  spawned = total-all fresh n refl;
  accepted = total-all waits n refl;
  counted = sym (total-fill finished new_pair n refl);
  ended = ground (arith, range);
}
Reach-Inv range (later r st) = Step-Inv range st (Reach-Inv range r)
