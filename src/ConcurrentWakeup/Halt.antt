-- ===== src/ConcurrentWakeup/Halt.antt =====
-- Where the program comes to a halt.

use yaay_rs.Base.{
  ℕ, zero, suc, ◌^◌, ◌<◌, ◌≡◌, ◌⊎◌, inl, inr, refl, ◌∙◌, false, Bool-cases, List, [], ◌∷◌, arith,
  ℕ_discrete,
}
use yaay_rs.Task.Contract.{Phase, sleeping, runnable, running, finished}
use yaay_rs.ConcurrentWakeup.{
  Waker, waking, ended, Pc, outside, entered, asserted, cleared, asserted_clear, restored, pending,
  Program, Wakes, Counts, ProgramStep, ProgramReach,
}
use yaay_rs.ConcurrentWakeup.Safety.{alive, in_poll, is_running, Inv, Reach-Inv}

-- No thread and no worker can move.
abbrev pub Stuck : Program → Type 0
Stuck s = (t : Program) → ProgramStep s t → ⊥

-- A thread that has not ended can move.
alive-moves :
    (ws : List Waker)
    → 0 < alive ws
    → ((us : List Waker) × Wakes ws us) ⊎ ((us : List Waker) × Counts ws us)
alive-moves [] pos = absurd (omega arith)
alive-moves (waking zero ∷ ws) pos = inr (ended ∷ ws, Counts.here)
alive-moves (waking (suc k) ∷ ws) pos = inl (waking k ∷ ws, Wakes.here)
alive-moves (ended ∷ ws) pos = elim (alive-moves ws pos) [
  | inl (us, w) ↦ inl (ended ∷ us, Wakes.there w)
  | inr (us, w) ↦ inr (ended ∷ us, Counts.there w)
]

stuck-alive : (s : Program) → Stuck s → alive s.wakers ≡ 0
stuck-alive s stuck = elim (ℕ_discrete (alive s.wakers) 0) [
  | yes e ↦ e
  | no ne ↦ elim (alive-moves s.wakers (omega (arith, ne))) [
    | inl (us, w) ↦ absurd (stuck _ (ProgramStep.wake w))
    | inr (us, w) ↦ absurd (stuck _ (ProgramStep.count w))
  ]
]

-- `Test::poll` can always go on.
stuck-outside : (s : Program) → Inv s → Stuck s → (p : Pc) → s.pc ≡ p → in_poll p ≡ false
stuck-outside s v stuck outside e = refl
stuck-outside s v stuck entered e = absurd (stuck _ (ProgramStep.assert_true e (ground (arith, v))))
stuck-outside s v stuck asserted e = absurd (stuck _ (ProgramStep.store_false e))
stuck-outside s v stuck cleared e =
    absurd (stuck _ (ProgramStep.assert_false e (ground (arith, v))))
stuck-outside s v stuck asserted_clear e = absurd (stuck _ (ProgramStep.store_true e))
stuck-outside s v stuck restored e = elim (ℕ_discrete s.n 0) [
  | yes z ↦ absurd (stuck _ (ProgramStep.load_zero e z))
  | no nz ↦ absurd (stuck _ (ProgramStep.load_more e nz))
]
stuck-outside s v stuck pending e = elim (Bool-cases s.task.wanted) [
  | inl w ↦ absurd (stuck _ (ProgramStep.repeat e w))
  | inr w ↦ absurd (stuck _ (ProgramStep.sleep e w))
]

-- The task has finished, or it sleeps and is not woken.
abbrev pub Halted : Program → Type 0
Halted s = (s.task.phase ≡ finished) ⊎ ((s.task.phase ≡ sleeping) × (s.task.wanted ≡ false))

-- With fewer than 2 ^ 32 threads, when nothing can move, every thread has ended and the count is 0, and
-- either the task has finished, or it sleeps for ever: there is no third way to come to a halt.
pub program-halts :
    {m k : ℕ} {s : Program}
    → m < 2 ^ 32
    → ProgramReach m k s
    → Stuck s
    → (alive s.wakers ≡ 0) × (s.n ≡ 0) × Halted s
program-halts {s} small r stuck =
    let v = Reach-Inv small r in
    let none_alive = stuck-alive s stuck in
    let n0 : s.n ≡ 0 = v.counted ∙ none_alive in
    let idle : is_running s.task.phase ≡ false = v.polled ∙ stuck-outside s v stuck s.pc refl in
    (none_alive, n0, halted s.task.phase refl idle v)
  where
    halted : (p : Phase) → s.task.phase ≡ p → is_running s.task.phase ≡ false → Inv s → Halted s
    halted sleeping e idle v = inr (e, v.quiet e)
    halted runnable e idle v = absurd (stuck _ (ProgramStep.poll e))
    halted running e idle v = absurd (ground arith)
    halted finished e idle v = inl e
