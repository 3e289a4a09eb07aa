-- ===== src/PingPong/Ends.antt =====
-- The program ends, and it ends when every `ping` is past its last round.
use yaay_rs.Base.{
  ℕ, zero, suc, ◌+◌, ◌*◌, ◌<◌, ◌≤◌, ◌≡◌, ◌≢◌, inl, inr, refl, ap, true, false, Bool-cases, total,
  total-set, total-get, total-find, total-complement, arith, dec_lt,
}
use yaay_rs.PingPong.{
  Ping, unaccepted, sending, receiving, counting, done, Pong, unspawned, connecting, awaiting,
  answering, blocked, Pair, connected, Main, spawning, accepting, resting, Game, PairStep, At,
  GameStep, GameReach,
}
use yaay_rs.PingPong.Pairs.{accepted, Fits-one_byte, Fits-Plays, Plays}
use yaay_rs.PingPong.Keeps.{fresh, waits, finished, to_spawn, to_accept, Inv, InRange, Reach-Inv}

-- Nothing can move.
abbrev pub Stuck : ℕ → ℕ → Game → Type 0
Stuck n r s = (t : Game) → GameStep n r s t → ⊥

abbrev unfinished : Pair → ℕ
unfinished p = elim p.ping [ done ↦ 0 | _ ↦ 1 ]

module _ {n r : ℕ} {s : Game} (v : Inv n r s) (stuck : Stuck n r s) (on : s.exited ≡ false) where
  Stuck-Plays : (i : ℕ) (p : Pair) → At s i p → Plays r p → ⊥
  Stuck-Plays i p at (q, st) = stuck _ (GameStep.play i on at st)

  Stuck-connected :
      (i : ℕ) (p : Pair) (q : Pong) → At s i p → p.pong ≡ q → q ≢ unspawned → connected q ≡ true
  Stuck-connected i p unspawned at e ne = absurd (ne refl)
  Stuck-connected i p connecting at e ne = absurd (Stuck-Plays i p at (_, PairStep.connect e))
  Stuck-connected i p (awaiting k) at e ne = refl
  Stuck-connected i p (answering k) at e ne = refl
  Stuck-connected i p blocked at e ne = refl

  -- All pairs are spawned and accepted.
  Stuck-resting : (m : Main) → s.main ≡ m → m ≡ resting
  Stuck-resting (spawning zero) e = absurd (stuck _ (GameStep.listen on e))
  Stuck-resting (spawning (suc k)) e =
      let (i, p, at, new) = total-find fresh s.pairs (omega (arith, v.spawned, ap to_spawn e)) in
      absurd (stuck _ (GameStep.spawn i on e at (ground (arith, new))))
  Stuck-resting (accepting zero) e = absurd (stuck _ (GameStep.rest on e))
  Stuck-resting (accepting (suc k)) e =
      let (i, p, at, new) =
        total-find waits s.pairs (omega (arith, v.accepted, ap (to_accept n) e)) in
      let old = total-get fresh s.pairs i p at in
      let linked =
        Stuck-connected i p p.pong at refl (λ eq. ground (arith, old, v.spawned, ap to_spawn e)) in
      absurd (stuck _ (GameStep.accept i on e at (ground (arith, new)) linked))
  Stuck-resting resting e = refl

  Stuck-finished : (i : ℕ) (p : Pair) → At s i p → finished p ≡ 1
  Stuck-finished i p at =
      let e = Stuck-resting s.main refl in
      let old = total-get waits s.pairs i p at in
      let taken : accepted p.ping ≡ true = ground (arith, old, v.accepted, ap (to_accept n) e) in
      elim (Fits-Plays r p p.ping (v.fits i p at) refl taken) [
        | inl plays ↦ absurd (Stuck-Plays i p at plays)
        | inr (inl now) ↦ absurd (stuck _ (GameStep.count_up i on at now))
        | inr (inr over) ↦ ground (arith, over)
      ]

  Stuck-unfinished : total unfinished s.pairs ≡ 0
  Stuck-unfinished = elim (dec_lt 0 (total unfinished s.pairs)) [
    | yes some_pair ↦
        let (i, p, at, more) = total-find unfinished s.pairs some_pair in
        absurd (ground (arith, Stuck-finished i p at, more))
    | no none_left ↦ omega arith
  ]

finished-one : (p : Pair) → finished p + unfinished p ≡ 1
finished-one p = ground arith

Stuck-exited : {n r : ℕ} (s : Game) → Inv n r s → Stuck n r s → s.exited ≡ true
Stuck-exited {n} s v stuck = elim (Bool-cases s.exited) [
  | inl e ↦ e
  | inr on ↦
      let all = Stuck-unfinished v stuck on in
      let sum = total-complement finished unfinished s.pairs finished-one in
      absurd (ground (arith, all, sum, v.counted, v.ended, v.sized, on))
]

exited-done :
    {n r : ℕ} (s : Game)
    → Inv n r s
    → s.exited ≡ true
    → (i : ℕ) (p : Pair) → At s i p
    → p.ping ≡ done
exited-done s v e i p at =
    let sum = total-complement finished unfinished s.pairs finished-one in
    let here = total-get unfinished s.pairs i p at in
    ground (arith, e, sum, here, v.counted, v.ended, v.sized)

-- The program cannot hang: when nothing can move, it has ended; and it ends only when every `ping` has
-- counted itself, and so is past its last round. This is for any number of pairs but 0 that fits into
-- COUNT, and any number of rounds.
pub game-no_deadlock :
    {n r : ℕ} {s : Game}
    → InRange n
    → GameReach n r s
    → (Stuck n r s → s.exited ≡ true)
      × (s.exited ≡ true → (i : ℕ) (p : Pair) → At s i p → p.ping ≡ done)
game-no_deadlock {s = s} range reach =
    let v = Reach-Inv range reach in (Stuck-exited s v, exited-done s v)

-- There is never more than one byte on its way between the two ends of a connection.
pub game-one_byte :
    {n r : ℕ} {s : Game}
    → InRange n
    → GameReach n r s
    → (i : ℕ) (p : Pair) → At s i p
    → p.there + p.back ≤ 1
game-one_byte range reach i p at = Fits-one_byte p ((Reach-Inv range reach).fits i p at)

-- The steps that are left
abbrev pub ping_rank : ℕ → Ping → ℕ
ping_rank r unaccepted = 2 * r + 3
ping_rank r (sending k) = 2 * k + 2
ping_rank r (receiving k) = 2 * k + 3
ping_rank r counting = 1
ping_rank r done = 0

abbrev pub pong_rank : ℕ → Pong → ℕ
pong_rank r unspawned = 2 * r + 3
pong_rank r connecting = 2 * r + 2
pong_rank r (awaiting k) = 2 * k + 1
pong_rank r (answering k) = 2 * k + 2
pong_rank r blocked = 0

abbrev pub rank : ℕ → Pair → ℕ
rank r p = ping_rank r p.ping + pong_rank r p.pong

abbrev pub main_rank : ℕ → Main → ℕ
main_rank n (spawning k) = k + n + 2
main_rank n (accepting k) = k + 1
main_rank n resting = 0

abbrev pub steps_left : ℕ → ℕ → Game → ℕ
steps_left n r s = total (rank r) s.pairs + main_rank n s.main

PairStep-rank : {r : ℕ} {p q : Pair} → PairStep r p q → rank r q < rank r p
PairStep-rank (PairStep.connect e) = ground arith
PairStep-rank (PairStep.send e) = ground arith
PairStep-rank (PairStep.receive e f) = ground arith
PairStep-rank (PairStep.stop e) = ground arith
PairStep-rank (PairStep.take e f) = ground arith
PairStep-rank (PairStep.answer e) = ground arith
PairStep-rank (PairStep.block e) = ground arith

-- The program terminates: every step leaves fewer steps to come, whatever the interleaving.
pub game-steps_left :
    {n r : ℕ} {s t : Game} → GameStep n r s t → steps_left n r t < steps_left n r s
game-steps_left {n} {r} {s} (GameStep.spawn i {k} {p} on e at new) = ground (
  arith,
  total-set (rank r) s.pairs i p (record p { pong = connecting }) at,
  ap (main_rank n) e,
  new,
)
game-steps_left {n} {r} {s} (GameStep.listen on e) = omega (arith, ap (main_rank n) e)
game-steps_left {n} {r} {s} (GameStep.accept i {k} {p} on e at new linked) = ground (
  arith,
  total-set (rank r) s.pairs i p (record p { ping = sending r }) at,
  ap (main_rank n) e,
  new,
)
game-steps_left {n} {r} {s} (GameStep.rest on e) = omega (arith, ap (main_rank n) e)
game-steps_left {n} {r} {s} (GameStep.play i {p} {q} on at st) =
    omega (arith, total-set (rank r) s.pairs i p q at, PairStep-rank st)
game-steps_left {n} {r} {s} (GameStep.count_up i {p} on at now) =
    ground (arith, total-set (rank r) s.pairs i p (record p { ping = done }) at, now)
