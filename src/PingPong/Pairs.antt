-- ===== src/PingPong/Pairs.antt =====
-- What holds of the two ends of a connection and the bytes between them.
use yaay_rs.Base.{ℕ, zero, suc, ◌⊎◌, inl, inr, ◌+◌, ◌≤◌, ◌≡◌, refl, ap, true, false, Bool, arith}
use yaay_rs.PingPong.{
  Ping, unaccepted, sending, receiving, counting, done, Pong, unspawned, connecting, awaiting,
  answering, blocked, Pair, connected, PairStep, new_pair,
}

-- The bytes that each end has still to write and to read
abbrev to_send : ℕ → Ping → ℕ
to_send r unaccepted = r
to_send r (sending k) = k
to_send r (receiving k) = k
to_send r _ = 0

abbrev to_receive : ℕ → Ping → ℕ
to_receive r unaccepted = r
to_receive r (sending k) = k
to_receive r (receiving k) = k + 1
to_receive r _ = 0

abbrev to_take : ℕ → Pong → ℕ
to_take r unspawned = r
to_take r connecting = r
to_take r (awaiting k) = k
to_take r (answering k) = k
to_take r blocked = 0

abbrev to_answer : ℕ → Pong → ℕ
to_answer r unspawned = r
to_answer r connecting = r
to_answer r (awaiting k) = k
to_answer r (answering k) = k + 1
to_answer r blocked = 0

abbrev pub accepted : Ping → Bool
accepted unaccepted = false
accepted _ = true

-- Every byte that is written is on its way or read, and only a connection is accepted.
pub record Fits (r : ℕ) (p : Pair) : Type 0 where
  pub sent : p.there + to_send r p.ping ≡ to_take r p.pong
  pub answered : p.back + to_answer r p.pong ≡ to_receive r p.ping
  pub linked : accepted p.ping ≡ true → connected p.pong ≡ true

pub new_pair-Fits : (r : ℕ) → Fits r new_pair
new_pair-Fits r = ground arith

pub PairStep-Fits : {r : ℕ} {p q : Pair} → PairStep r p q → Fits r p → Fits r q
PairStep-Fits (PairStep.connect e) v = ground (arith, v)
PairStep-Fits (PairStep.send e) v = ground (arith, v)
PairStep-Fits (PairStep.receive e f) v = ground (arith, v)
PairStep-Fits (PairStep.stop e) v = ground (arith, v)
PairStep-Fits (PairStep.take e f) v = ground (arith, v)
PairStep-Fits (PairStep.answer e) v = ground (arith, v)
PairStep-Fits (PairStep.block e) v = ground (arith, v)

to_receive-le : (r : ℕ) (p : Ping) → to_receive r p ≤ to_send r p + 1
to_receive-le r unaccepted = omega arith
to_receive-le r (sending k) = omega arith
to_receive-le r (receiving k) = omega arith
to_receive-le r counting = omega arith
to_receive-le r done = omega arith

to_take-le : (r : ℕ) (p : Pong) → to_take r p ≤ to_answer r p
to_take-le r unspawned = omega arith
to_take-le r connecting = omega arith
to_take-le r (awaiting k) = omega arith
to_take-le r (answering k) = omega arith
to_take-le r blocked = omega arith

pub Fits-one_byte : {r : ℕ} (p : Pair) → Fits r p → p.there + p.back ≤ 1
Fits-one_byte {r} p v =
    omega (arith, v.sent, v.answered, to_receive-le r p.ping, to_take-le r p.pong)

-- A connection whose ends are neither at the start nor at the count has a step.
abbrev pub Plays : ℕ → Pair → Type 0
Plays r p = (q : Pair) × PairStep r p q

receiving-Plays :
    (r k : ℕ) (p : Pair) (q : Pong)
    → Fits r p
    → p.ping ≡ receiving k
    → p.pong ≡ q
    → p.back ≡ 0
    → Plays r p
receiving-Plays r k p unspawned v e f z =
    let c : connected p.pong ≡ true = v.linked (ap accepted e) in absurd (ground (arith, c, f))
receiving-Plays r k p connecting v e f z = (_, PairStep.connect f)
receiving-Plays r k p (awaiting zero) v e f z = absurd (ground (arith, v))
receiving-Plays r k p (awaiting (suc j)) v e f z =
    let t : p.there ≡ suc 0 = ground (arith, v) in (_, PairStep.take f t)
receiving-Plays r k p (answering j) v e f z = (_, PairStep.answer f)
receiving-Plays r k p blocked v e f z = absurd (ground (arith, v))

-- An accepted connection has a step, or its `ping` is before the count or past it.
pub Fits-Plays :
    (r : ℕ) (p : Pair) (q : Ping)
    → Fits r p
    → p.ping ≡ q
    → accepted q ≡ true
    → Plays r p ⊎ ((q ≡ counting) ⊎ (q ≡ done))
Fits-Plays r p unaccepted v e on = absurd (ground arith)
Fits-Plays r p (sending zero) v e on = inl (_, PairStep.stop e)
Fits-Plays r p (sending (suc k)) v e on = inl (_, PairStep.send e)
Fits-Plays r p (receiving k) v e on = inl (receive_or_wait p.back refl)
  where
    receive_or_wait : (b : ℕ) → p.back ≡ b → Plays r p
    receive_or_wait zero z = receiving-Plays r k p p.pong v e refl z
    receive_or_wait (suc b) z = (_, PairStep.receive e z)
Fits-Plays r p counting v e on = inr (inl refl)
Fits-Plays r p done v e on = inr (inr refl)
