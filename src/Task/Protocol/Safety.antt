-- ===== src/Task/Protocol/Safety.antt =====
-- What holds of the task in every reachable state, whatever the interleaving.
use yaay_rs.Base.{
  ℕ, zero, suc, ◌+◌, ◌≤◌, ◌<◌, ◌≡◌, ◌⊎◌, inl, inr, refl, Bool, true, false, List, [], ◌∷◌, some,
  get_elem?, total, total-get, total-get_two, total-find, arith, ℕ_discrete, dec_lt, Bool-cases,
}
use yaay_rs.Task.Protocol.{
  owner, future, Pc, away, spawning, woken, pushing, popped, polling, cas, ready, discarded, System,
  Reach, AllAway,
}
use yaay_rs.Task.Protocol.Invariant.{token, refs, drop_duty, free_duty, Reach-Inv}

-- In `poll`, from its entry to the write that ends it, or in `wake` called by the future.
abbrev pub in_poll : Pc → Bool
in_poll popped = true
in_poll polling = true
in_poll (cas _) = true
in_poll ready = true
in_poll (woken future _) = true
in_poll (pushing future) = true
in_poll _ = false

token-in_poll : (p : Pc) → in_poll p ≡ true → 1 ≤ token p
token-in_poll popped e = omega arith
token-in_poll polling e = omega arith
token-in_poll (cas _) e = omega arith
token-in_poll ready e = omega arith
token-in_poll (woken future _) e = omega arith
token-in_poll (pushing future) e = omega arith
token-in_poll _ e = ground arith

-- Points where the thread's next step reads or writes the task.
abbrev pub uses_task : Pc → Bool
uses_task away = false
uses_task _ = true

-- A task is never polled by two threads at once.
pub polled_by_one :
    {s : System}
    → Reach s
    → (i j : ℕ) {p q : Pc} → get_elem? s.threads i ≡ some p
    → get_elem? s.threads j ≡ some q
    → in_poll p ≡ true
    → in_poll q ≡ true
    → i ≡ j
polled_by_one {s} r i j {p} {q} at_i at_j in_p in_q = elim (ℕ_discrete i j) [
  | yes e ↦ e
  | no ne ↦ absurd (
      ground (
        arith,
        (Reach-Inv r).one_token,
        total-get_two token s.threads i j p q at_i at_j ne,
        token-in_poll p in_p,
        token-in_poll q in_q,
      ))
]

-- A task is linked into the queues at most once, and while it is polled, not at all.
pub queued_once :
    {s : System}
    → Reach s
    → (s.mem.queued ≤ 1)
      × ((i : ℕ) (p : Pc) → get_elem? s.threads i ≡ some p → in_poll p ≡ true → s.mem.queued ≡ 0)
queued_once {s} r = (
  ground (arith, (Reach-Inv r).one_token),
  λ i p at e.
      ground (arith, (Reach-Inv r).one_token, total-get token s.threads i p at, token-in_poll p e),
)

-- The future is dropped at most once, and never polled once it is marked or dropped.
pub dropped_once :
    {s : System}
    → Reach s
    → (s.mem.drops ≤ 1)
      × ((i : ℕ) (p : Pc)
          → get_elem? s.threads i ≡ some p
          → in_poll p ≡ true
          → (s.mem.status.dropped ≡ false) × (s.mem.drops ≡ 0))
dropped_once {s} r = (
  ground (arith, (Reach-Inv r).dropped_once),
  λ i p at e. ground (arith, Reach-Inv r, total-get token s.threads i p at, token-in_poll p e),
)

-- Each thread that is not away has a share in the task.
shares-uses_task : (p : Pc) → uses_task p ≡ true → 1 ≤ token p + refs p + free_duty p
shares-uses_task (woken owner _) e = omega arith
shares-uses_task (woken future _) e = omega arith
shares-uses_task (pushing owner) e = omega arith
shares-uses_task (pushing future) e = omega arith
shares-uses_task (cas _) e = omega arith
shares-uses_task (discarded _) e = omega arith
shares-uses_task _ e = ground arith

-- The memory is freed at most once. While a thread is about to use the task, or a queue links it,
-- it is not freed.
pub no_use_after_free :
    {s : System}
    → Reach s
    → (s.mem.frees ≤ 1)
      × ((i : ℕ) (p : Pc) → get_elem? s.threads i ≡ some p → uses_task p ≡ true → s.mem.frees ≡ 0)
      × (0 < s.mem.queued → s.mem.frees ≡ 0)
no_use_after_free {s} r = (
  ground (arith, Reach-Inv r),
  λ i p at e. ground (
    arith,
    Reach-Inv r,
    total-get token s.threads i p at,
    total-get refs s.threads i p at,
    total-get free_duty s.threads i p at,
    shares-uses_task p e,
  ),
  λ h. ground (arith, Reach-Inv r),
)

total-AllAway : (w : Pc → ℕ) → w away ≡ 0 → (ps : List Pc) → AllAway ps → total w ps ≡ 0
unfolding total
total-AllAway w z [] h = refl
total-AllAway w z (p ∷ ps) h = rw h.0 (omega (arith, total-AllAway w z ps h.1))

-- No leak: once the task is marked dropped and every thread has let go of it, its future has been
-- dropped once and its memory freed once.
pub freed_at_the_end :
    {s : System}
    → Reach s
    → s.mem.status.dropped ≡ true
    → AllAway s.threads
    → (s.mem.drops ≡ 1) × (s.mem.frees ≡ 1)
freed_at_the_end {s} r marked gone = ground (
  arith,
  Reach-Inv r,
  total-AllAway refs refl s.threads gone,
  total-AllAway drop_duty refl s.threads gone,
  total-AllAway free_duty refl s.threads gone,
)

-- About to put the task into a queue.
abbrev pub is_pushing : Pc → Bool
is_pushing (pushing _) = true
is_pushing spawning = true
is_pushing _ = false

-- A task that is marked dropped is in no queue, and no `wake` schedules it any more.
pub dropped-not_scheduled :
    {s : System}
    → Reach s
    → s.mem.status.dropped ≡ true
    → (s.mem.queued ≡ 0)
      × ((i : ℕ) (p : Pc) → get_elem? s.threads i ≡ some p → is_pushing p ≡ false)
dropped-not_scheduled {s} r marked =
    (ground (arith, Reach-Inv r), λ i p at. not_pushing p (total-get token s.threads i p at))
  where
    not_pushing : (p : Pc) → token p ≤ total token s.threads → is_pushing p ≡ false
    not_pushing (pushing owner) h = ground (arith, Reach-Inv r)
    not_pushing (pushing future) h = ground (arith, Reach-Inv r)
    not_pushing spawning h = ground (arith, Reach-Inv r)
    not_pushing _ h = refl

-- When the task lies idle (not muted, not dropped) no wake-up is outstanding, no queue links it and no
-- thread polls it.
pub idle-no_wakeup :
    {s : System}
    → Reach s
    → s.mem.status.muted ≡ false
    → s.mem.status.dropped ≡ false
    → (s.mem.pending ≡ false)
      × (s.mem.queued ≡ 0)
      × ((i : ℕ) (p : Pc) → get_elem? s.threads i ≡ some p → in_poll p ≡ false)
idle-no_wakeup {s} r unmuted unmarked = (
  ground (arith, Reach-Inv r),
  ground (arith, Reach-Inv r),
  λ i p at. elim (Bool-cases (in_poll p)) [
    | inl e ↦
        absurd (ground (arith, Reach-Inv r, total-get token s.threads i p at, token-in_poll p e))
    | inr e ↦ e
  ],
)

-- Bound to poll or drop the task, or to hand it to a thread that is.
abbrev pub is_bound : Pc → Bool
is_bound p = elim (token p) [ zero ↦ false | suc n ↦ true ]

-- No wake-up is lost: if the task was woken since its future was last called, and is not marked
-- dropped, the status still says so, and either a queue links the task or some thread is bound to it.
pub wakeup_kept :
    {s : System}
    → Reach s
    → s.mem.pending ≡ true
    → s.mem.status.dropped ≡ false
    → (s.mem.status.notified ≡ true)
      × ((0 < s.mem.queued)
          ⊎ ((i : ℕ) × (p : Pc) × (get_elem? s.threads i ≡ some p) × (is_bound p ≡ true)))
wakeup_kept {s} r woken_since unmarked = (
  ground (arith, Reach-Inv r),
  elim (dec_lt 0 s.mem.queued) [
    | yes linked ↦ inl linked
    | no free ↦
        let (i, p, at, heavy) = total-find token s.threads (ground (arith, Reach-Inv r)) in
        inr (i, p, at, ground arith)
  ],
)
