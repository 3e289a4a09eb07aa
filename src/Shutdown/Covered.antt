-- ===== src/Shutdown/Covered.antt =====
-- What `shutdown_async` and the workers make sure of.
use yaay_rs.Base.{
  ℕ, ◌<◌, ◌≡◌, ◌⊎◌, inl, inr, Bool, true, false, Bool-cases, arith, ap, total, total-find, dec_lt,
}
use yaay_rs.Shutdown.{Pc, found, popped, spreading, pushing, returned, Halt, At, HaltReach}
use yaay_rs.Shutdown.Invariant.{reaches, calls, Reach-Inv}

-- The worker has a `Shutdown` task in its hands, up to its last push.
abbrev pub is_busy : Pc → Bool
is_busy found = true
is_busy popped = true
is_busy (spreading rest) = true
is_busy (pushing t rest) = true
is_busy _ = false

idle-reaches : (v : ℕ) (p : Pc) → is_busy p ≡ false → reaches v p ≡ 0
idle-reaches v p e = ground arith

-- No worker is forgotten, whoever stole whose `Shutdown` task: when `shutdown_async` has returned and no
-- worker is between the pop of a `Shutdown` task and its last push, every worker has its flag set or has
-- a `Shutdown` task in its own queue.
pub shutdown-covered :
    {n : ℕ} {s : Halt}
    → HaltReach n s
    → s.caller ≡ returned
    → ((j : ℕ) (p : Pc) → At s j p → is_busy p ≡ false)
    → (i : ℕ) → i < n
    → (s.flags i ≡ true) ⊎ (0 < s.queues i)
shutdown-covered {n} {s} r over idle i lt = elim (Bool-cases (s.flags i)) [
  | inl e ↦ inl e
  | inr e ↦ elim (dec_lt 0 (total (reaches i) s.workers)) [
    | yes some_worker ↦
        let (j, p, at, pos) = total-find (reaches i) s.workers some_worker in
        absurd (omega (arith, pos, idle-reaches i p (idle j p at)))
    | no none_left ↦ inr (omega (arith, (Reach-Inv r).covered i lt e, ap (calls i) over))
  ]
]
