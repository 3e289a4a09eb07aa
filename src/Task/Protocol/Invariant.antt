-- ===== src/Task/Protocol/Invariant.antt =====
-- What every interleaving keeps, as equations between the shared fields and sums over the threads.
use yaay_rs.Base.{
  ℕ, ◌+◌, ◌%◌, ◌≤◌, ◌<◌, ◌≡◌, refl, true, ◌&&◌, ◌||◌, not, ◌==◌, if◌then◌else◌, List, [], ◌∷◌, ◌++◌,
  some, get_elem?, set, length, total, total-set, total-snoc, total-get, total-le_length, arith,
}
use yaay_rs.Task.Status.{digit}
use yaay_rs.Task.Protocol.{
  usize_mod, Shared, owner, future, Pc, away, spawning, holds, woken, pushing, popped, polling, cas,
  ready, discarding, discarded, dropping, releasing, freeing, is_settled, is_first_drop, Move,
  System, Step, move, clone, init, AllAway, Reach, start, later, can_clone,
}

-- The right to schedule or to poll the task.
abbrev pub token : Pc → ℕ
token (woken future prev) = 1 + digit (not (is_settled prev))
token (woken owner prev) = digit (not (is_settled prev))
token (pushing future) = 2
token (pushing owner) = 1
token spawning = 1
token popped = 1
token polling = 1
token (cas _) = 1
token ready = 1
token discarding = 1
token _ = 0

-- A counted reference: a waker, or the runtime's own once the task is marked dropped.
abbrev pub refs : Pc → ℕ
refs holds = 1
refs (woken owner _) = 1
refs (pushing owner) = 1
refs (discarded _) = 1
refs dropping = 1
refs releasing = 1
refs _ = 0

-- The duty to drop the future.
abbrev pub drop_duty : Pc → ℕ
drop_duty dropping = 1
drop_duty (discarded prev) = digit (is_first_drop prev)
drop_duty _ = 0

-- The duty to free the memory.
abbrev pub free_duty : Pc → ℕ
free_duty freeing = 1
free_duty _ = 0

pub record Inv (m : Shared) (ts : List Pc) : Type 0 where
  pub one_token : m.queued + total token ts ≡ digit (m.status.muted && not m.status.dropped)
  pub counted : m.rc ≡ total refs ts + digit (not m.status.dropped)
  pub dropped_once : m.drops + total drop_duty ts ≡ digit m.status.dropped
  pub freed_once : m.frees + total free_duty ts ≡ (if m.rc == 0 then 1 else 0)
  pub noted : m.pending ≡ true → (m.status.notified || m.status.dropped) ≡ true
  pub muted : m.status.notified ≡ true → m.status.muted ≡ true
  pub small : m.rc < usize_mod

-- The sums before and after a thread goes from `p` to `q`.
record Sums (ts us : List Pc) (p q : Pc) : Type 0 where
  tokens : total token us + token p ≡ total token ts + token q
  references : total refs us + refs p ≡ total refs ts + refs q
  drop_duties : total drop_duty us + drop_duty p ≡ total drop_duty ts + drop_duty q
  free_duties : total free_duty us + free_duty p ≡ total free_duty ts + free_duty q
  own_token : token p ≤ total token ts

Move-Inv :
    {m m' : Shared} {ts us : List Pc} {p q : Pc}
    → Move m p m' q
    → Inv m ts
    → Sums ts us p q
    → Inv m' us
Move-Inv Move.wake_held v s = ground arith
Move-Inv (Move.wake_skip {c = owner} e) v s = ground arith
Move-Inv (Move.wake_skip {c = future} e) v s = ground arith
Move-Inv (Move.wake_schedule {c = owner} e) v s = ground arith
Move-Inv (Move.wake_schedule {c = future} e) v s = ground arith
Move-Inv (Move.push {c = owner}) v s = ground arith
Move-Inv (Move.push {c = future}) v s = ground arith
Move-Inv (Move.pop e) v s = ground arith
Move-Inv (Move.cas_park e f) v s = ground arith
Move-Inv (Move.cas_repoll e f) v s = ground arith
Move-Inv (Move.discard_pop e) v s = ground arith
Move-Inv (Move.discard_first e) v s = ground arith
Move-Inv (Move.discard_again e) v s = ground arith
Move-Inv Move.dec v s = ground arith
Move-Inv mv v s = ground arith

set-Sums : (ts : List Pc) (i : ℕ) (p q : Pc) → get_elem? ts i ≡ some p → Sums ts (set ts i q) p q
set-Sums ts i p q at = record {
  tokens = total-set token ts i p q at;
  references = total-set refs ts i p q at;
  drop_duties = total-set drop_duty ts i p q at;
  free_duties = total-set free_duty ts i p q at;
  own_token = total-get token ts i p at;
}

refs-le_one : (p : Pc) → refs p ≤ 1
refs-le_one holds = omega arith
refs-le_one (woken owner _) = omega arith
refs-le_one (woken future _) = omega arith
refs-le_one (pushing owner) = omega arith
refs-le_one (pushing future) = omega arith
refs-le_one _ = omega arith

-- A thread that can clone the waker sees the task referenced.
can_clone-live :
    {m : Shared} {ts : List Pc} (i : ℕ) (p : Pc)
    → can_clone p ≡ true
    → get_elem? ts i ≡ some p
    → Inv m ts
    → 0 < m.rc
can_clone-live {ts} i holds e at v = ground (arith, total-get refs ts i holds at)
can_clone-live {ts} i polling e at v = ground (arith, total-get token ts i polling at)
can_clone-live i _ e at v = ground arith

clone-Inv :
    {m : Shared} {ts : List Pc}
    → Inv m ts
    → 0 < m.rc
    → length ts + 2 < usize_mod
    → Inv (record m { rc = (m.rc + 1) % usize_mod }) (ts ++ holds ∷ [])
clone-Inv {m} {ts} v live few = ground (
  arith,
  total-snoc token ts holds,
  total-snoc refs ts holds,
  total-snoc drop_duty ts holds,
  total-snoc free_duty ts holds,
  total-le_length refs refs-le_one ts,
)

-- Every step of every thread keeps the invariant.
pub Step-Inv : {s t : System} → Step s t → Inv s.mem s.threads → Inv t.mem t.threads
Step-Inv {s} (move i {p} {q} at mv) v = Move-Inv mv v (set-Sums s.threads i p q at)
Step-Inv (clone i {p} at can few) v = clone-Inv v (can_clone-live i p can at v) few

total-away : (w : Pc → ℕ) → w away ≡ 0 → (ps : List Pc) → AllAway ps → total w ps ≡ 0
unfolding total
total-away w z [] h = refl
total-away w z (p ∷ ps) h = rw h.0 (omega (arith, total-away w z ps h.1))

init-Inv : (ps : List Pc) → AllAway ps → Inv (init ps).mem (init ps).threads
unfolding total
init-Inv ps h = ground (
  arith,
  total-away token refl ps h,
  total-away refs refl ps h,
  total-away drop_duty refl ps h,
  total-away free_duty refl ps h,
)

pub Reach-Inv : {s : System} → Reach s → Inv s.mem s.threads
Reach-Inv (start others h few) = init-Inv others h
Reach-Inv (later r st) = Step-Inv st (Reach-Inv r)
