-- ===== src/Task/Contract/Simulation.antt =====
-- The interleaved accesses of Task/Protocol keep the contract.
use yaay_rs.Base.{
  ℕ, zero, suc, ◌≤◌, ◌+◌, ◌≡◌, ◌⊎◌, inl, inr, refl, true, false, not, if◌then◌else◌, List, [], ◌∷◌,
  some, get_elem?, set, total, total-set, total-snoc, total-get, arith, ◌==◌,
}
use yaay_rs.Task.Status.{Status}
use yaay_rs.Task.Protocol.{
  Shared, owner, future, Pc, away, spawning, holds, woken, pushing, popped, polling, cas, ready,
  discarding, discarded, dropping, releasing, freeing, is_settled, is_first_drop, Move, System,
  Step, move, clone, init, AllAway, Reach, start,
}
use yaay_rs.Task.Protocol
use yaay_rs.Task.Protocol.Invariant.{token, Inv, Reach-Inv}
use yaay_rs.Task.Contract.{
  wake_phase, Phase, sleeping, runnable, running, finished, Contract, contract, ContractStep,
  ContractReach, spawned,
}

-- Within a call of `poll` that has cleared NOTIFIED, and has neither parked nor dropped the task.
abbrev pub runs : Pc → ℕ
runs polling = 1
runs (cas _) = 1
runs ready = 1
runs (woken future _) = 1
runs (pushing future) = 1
runs _ = 0

abbrev pub phase_of : Status → ℕ → Phase
phase_of s n =
    if s.dropped
    then finished
    else if not s.muted
    then sleeping
    else if n == 0
    then runnable
    else running

-- The contract's view of a state
abbrev pub view : Shared → ℕ → Contract
view m n = contract (phase_of m.status n) m.status.notified

abbrev pub Keeps : Contract → Contract → Type 0
Keeps c d = (c ≡ d) ⊎ ContractStep c d

pub Keeps-by :
    {c d : Contract} (c' d' : Contract) → c ≡ c' → d ≡ d' → ContractStep c' d' → Keeps c d
Keeps-by c' d' e f step = inr (rw (e, f) step)

-- What a thread that goes from `p` to `q` knows of the others.
record Counted (m : Shared) (ts : List Pc) (n n' : ℕ) (p q : Pc) : Type 0 where
  moved : n' + runs p ≡ n + runs q
  here : runs p ≤ n
  held : token p ≤ total token ts
  own : n + token p ≤ total token ts + runs p
  inv : Inv m ts

Move-Keeps :
    {m m' : Shared} {ts : List Pc} {n n' : ℕ} {p q : Pc}
    → Move m p m' q
    → Counted m ts n n' p q
    → Keeps (view m n) (view m' n')
Move-Keeps {m} {n = n} {n'} Move.wake_held v =
    Keeps-by (view m n) (contract (wake_phase (phase_of m.status n)) true) refl (ground (arith, v))
      ContractStep.wake
Move-Keeps {m} {n = n} Move.wake_polled v =
    Keeps-by (view m n) (contract (wake_phase (phase_of m.status n)) true) refl (ground (arith, v))
      ContractStep.wake
Move-Keeps (Move.wake_skip {c = owner} e) v = inl (ground (arith, v))
Move-Keeps (Move.wake_skip {c = future} e) v = inl (ground (arith, v))
Move-Keeps (Move.wake_schedule {c = owner} e) v = inl (ground (arith, v))
Move-Keeps (Move.wake_schedule {c = future} e) v = inl (ground (arith, v))
Move-Keeps (Move.push {c = owner}) v = inl (ground (arith, v))
Move-Keeps (Move.push {c = future}) v = inl (ground (arith, v))
Move-Keeps {m} Move.begin v =
    Keeps-by (contract runnable m.status.notified) (contract running false) (ground (arith, v))
      (ground (arith, v)) ContractStep.poll
Move-Keeps (Move.cas_park e f) v =
    Keeps-by (contract running false) (contract sleeping false) (ground (arith, v))
      (ground (arith, v)) ContractStep.sleep
Move-Keeps {m} {n = n} {n'} (Move.cas_repoll e f) v =
    let live : m.status.dropped ≡ false = ground (arith, v) in
    let muted : m.status.muted ≡ true = ground (arith, v) in
    let noted : m.status.notified ≡ true = ground (arith, e, f, live, muted) in
    let busy : (n == 0) ≡ false = ground (arith, v) in
    let busy' : (n' == 0) ≡ false = ground (arith, v) in
    Keeps-by (contract running true) (contract running false) (rw (live, muted, noted, busy) refl)
      (rw busy' refl) ContractStep.repeat
Move-Keeps {m} Move.mark v =
    Keeps-by (contract running m.status.notified) (contract finished m.status.notified)
      (ground (arith, v)) (ground (arith, v)) ContractStep.finish
Move-Keeps {m} Move.discard_mark v =
    Keeps-by (contract runnable m.status.notified) (contract finished m.status.notified)
      (ground (arith, v)) (ground (arith, v)) ContractStep.discard
Move-Keeps mv v = inl (ground (arith, v))

runs_le_token : (p : Pc) → runs p ≤ token p
runs_le_token (woken owner _) = omega arith
runs_le_token (woken future _) = omega arith
runs_le_token (pushing owner) = omega arith
runs_le_token (pushing future) = omega arith
runs_le_token (cas _) = omega arith
runs_le_token _ = ground arith

total-runs_le : (ts : List Pc) → total runs ts ≤ total token ts
unfolding total
total-runs_le [] = omega arith
total-runs_le (p ∷ ts) = omega (arith, runs_le_token p, total-runs_le ts)

-- A thread that does not run has its tokens besides those of the threads that do.
own-token :
    (ts : List Pc) (i : ℕ) (p : Pc)
    → get_elem? ts i ≡ some p
    → total runs ts + token p ≤ total token ts + runs p
unfolding total
own-token [] i p at = absurd (ground arith)
own-token (q ∷ ts) zero p at = let e : q ≡ p = cc in rw e (omega (arith, total-runs_le ts))
own-token (q ∷ ts) (suc i) p at = omega (arith, runs_le_token q, own-token ts i p at)

set-Counted :
    (m : Shared) (ts : List Pc) (i : ℕ) (p q : Pc)
    → Inv m ts
    → get_elem? ts i ≡ some p
    → Counted m ts (total runs ts) (total runs (set ts i q)) p q
set-Counted m ts i p q v at = record {
  moved = total-set runs ts i p q at;
  here = total-get runs ts i p at;
  held = total-get token ts i p at;
  own = own-token ts i p at;
  inv = v;
}

abbrev pub contract_of : System → Contract
contract_of s = view s.mem (total runs s.threads)

-- From every state that the threads can reach, every access of a thread, and every clone of a waker, is
-- a step of the contract or none, as seen by the status byte and by whether a thread is in `poll`.
pub Step-Keeps : {s t : System} → Reach s → Step s t → Keeps (contract_of s) (contract_of t)
Step-Keeps {s} r (move i {p} {q} at mv) =
    Move-Keeps mv (set-Counted s.mem s.threads i p q (Reach-Inv r) at)
Step-Keeps {s} r (clone i at can few) = inl (ground (arith, total-snoc runs s.threads holds))

total-away : (ps : List Pc) → AllAway ps → total runs ps ≡ 0
unfolding total
total-away [] h = refl
total-away (p ∷ ps) h = rw h.0 (omega (arith, total-away ps h.1))

-- Whatever the interleaving, the task is in a state that the contract leads to.
pub Reach-ContractReach : {s : System} → Reach s → ContractReach (contract_of s)
unfolding total
Reach-ContractReach (start others gone few) = rw (total-away others gone) spawned
Reach-ContractReach (Protocol.later {s} {t} r st) = elim (Step-Keeps r st) [
  | inl e ↦ rw (← e) (Reach-ContractReach r)
  | inr step ↦ ContractReach.later (Reach-ContractReach r) step
]
