-- ===== src/ConcurrentWakeup/Hang.antt =====
-- A run of the program that ends with its task asleep.
use mathlib.Core.List.{append_assoc}
use yaay_rs.Base.{
  ℕ, zero, suc, ◌+◌, ◌-◌, ◌%◌, ◌^◌, ◌<◌, ◌≡◌, ◌≢◌, refl, sym, Bool, true, false, List, [], ◌∷◌,
  ◌++◌, arith, subst,
}
use yaay_rs.Task.Contract.{sleeping, running, contract}
use yaay_rs.ConcurrentWakeup.{
  Waker, waking, ended, outside, entered, pending, Program, Wakes, Counts, ProgramStep, wakers_of,
  ProgramReach, start, later,
}
use yaay_rs.ConcurrentWakeup.Safety.{alive}
use yaay_rs.ConcurrentWakeup.Halt.{Stuck}

prefix-Wakes : (pre : List Waker) {ws us : List Waker} → Wakes ws us → Wakes (pre ++ ws) (pre ++ us)
prefix-Wakes [] w = w
prefix-Wakes (p ∷ pre) w = Wakes.there (prefix-Wakes pre w)

prefix-Counts :
    (pre : List Waker) {ws us : List Waker} → Counts ws us → Counts (pre ++ ws) (pre ++ us)
prefix-Counts [] w = w
prefix-Counts (p ∷ pre) w = Counts.there (prefix-Counts pre w)

-- The task is polled, and stands at the start of `Test::poll`.
abbrev at_entry : List Waker → Bool → ℕ → Program
at_entry ws w n = record {
  task = contract running w;
  pc = entered;
  flag = true;
  n = n;
  wakers = ws;
  panicked = false;
}

-- The task sleeps.
abbrev asleep : List Waker → ℕ → Program
asleep ws n = record {
  task = contract sleeping false;
  pc = outside;
  flag = true;
  n = n;
  wakers = ws;
  panicked = false;
}

abbrev ended_of : ℕ → List Waker
ended_of zero = []
ended_of (suc c) = ended ∷ ended_of c

module _ {m k : ℕ} where
  wake_one :
      (j : ℕ) (w : Bool) (pre ws : List Waker) (n : ℕ)
      → ProgramReach m k (at_entry (pre ++ waking j ∷ ws) w n)
      → (w' : Bool) × ProgramReach m k (at_entry (pre ++ waking 0 ∷ ws) w' n)
  wake_one zero w pre ws n r = (w, r)
  wake_one (suc j) w pre ws n r =
      wake_one j true pre ws n (later r (ProgramStep.wake (prefix-Wakes pre Wakes.here)))

  wake_all :
      (c : ℕ) (w : Bool) (pre : List Waker) (n : ℕ)
      → ProgramReach m k (at_entry (pre ++ wakers_of c k) w n)
      → (w' : Bool) × ProgramReach m k (at_entry (pre ++ wakers_of c 0) w' n)
  wake_all zero w pre n r = (w, r)
  wake_all (suc c) w pre n r =
      let (w1, r1) = wake_one k w pre (wakers_of c k) n r in
      let (w2, r2) = wake_all c w1 (pre ++ waking 0 ∷ []) n (
        subst (λ ws. ProgramReach m k (at_entry ws w1 n))
          (sym (append_assoc pre (waking 0 ∷ []) (wakers_of c k))) r1) in
      (
        w2,
        subst (λ ws. ProgramReach m k (at_entry ws w2 n))
            (append_assoc pre (waking 0 ∷ []) (wakers_of c 0)) r2,
      )

  -- The poll finds the count above 0.
  poll_pending :
      (w : Bool) (ws : List Waker) (n : ℕ)
      → n ≢ 0
      → ProgramReach m k (at_entry ws w n)
      → ProgramReach m k (record (at_entry ws w n) { pc = pending })
  poll_pending w ws n ne r =
      later
        (later
          (later
            (later (later r (ProgramStep.assert_true refl refl)) (ProgramStep.store_false refl))
            (ProgramStep.assert_false refl refl))
          (ProgramStep.store_true refl))
        (ProgramStep.load_more refl ne)

  fall_asleep :
      (w : Bool) (ws : List Waker) (n : ℕ)
      → n ≢ 0
      → ProgramReach m k (at_entry ws w n)
      → ProgramReach m k (asleep ws n)
  fall_asleep false ws n ne r = later (poll_pending false ws n ne r) (ProgramStep.sleep refl refl)
  fall_asleep true ws n ne r =
      let again = later (poll_pending true ws n ne r) (ProgramStep.repeat refl refl) in
      later (poll_pending false ws n ne again) (ProgramStep.sleep refl refl)

  count_all :
      (c : ℕ) (pre : List Waker)
      → c < 2 ^ 32
      → ProgramReach m k (asleep (pre ++ wakers_of c 0) c)
      → ProgramReach m k (asleep (pre ++ ended_of c) 0)
  count_all zero pre small r = r
  count_all (suc c) pre small r =
      let fewer : (suc c + 2 ^ 32 - 1) % 2 ^ 32 ≡ c = omega (arith, small) in
      let r1 =
        subst (λ n. ProgramReach m k (asleep (pre ++ ended ∷ wakers_of c 0) n)) fewer
          (later r (ProgramStep.count (prefix-Counts pre Counts.here))) in
      subst (λ ws. ProgramReach m k (asleep ws 0)) (append_assoc pre (ended ∷ []) (ended_of c))
        (count_all c (pre ++ ended ∷ []) (omega (arith, small)) (
          subst (λ ws. ProgramReach m k (asleep ws c))
            (sym (append_assoc pre (ended ∷ []) (wakers_of c 0))) r1))

Wakes-none : {ws us : List Waker} → Wakes ws us → alive ws ≡ 0 → ⊥
Wakes-none Wakes.here e = absurd (omega (arith, e))
Wakes-none (Wakes.there {w = waking k} w) e = absurd (omega (arith, e))
Wakes-none (Wakes.there {w = ended} w) e = Wakes-none w e

Counts-none : {ws us : List Waker} → Counts ws us → alive ws ≡ 0 → ⊥
Counts-none Counts.here e = absurd (omega (arith, e))
Counts-none (Counts.there {w = waking k} w) e = absurd (omega (arith, e))
Counts-none (Counts.there {w = ended} w) e = Counts-none w e

asleep-Stuck : (ws : List Waker) (n : ℕ) → alive ws ≡ 0 → Stuck (asleep ws n)
asleep-Stuck ws n e t (ProgramStep.wake w) = Wakes-none w e
asleep-Stuck ws n e t (ProgramStep.count w) = Counts-none w e
asleep-Stuck ws n e t (ProgramStep.poll f) = ground arith
asleep-Stuck ws n e t (ProgramStep.assert_true f g) = ground arith
asleep-Stuck ws n e t (ProgramStep.fail_true f g) = ground arith
asleep-Stuck ws n e t (ProgramStep.store_false f) = ground arith
asleep-Stuck ws n e t (ProgramStep.assert_false f g) = ground arith
asleep-Stuck ws n e t (ProgramStep.fail_false f g) = ground arith
asleep-Stuck ws n e t (ProgramStep.store_true f) = ground arith
asleep-Stuck ws n e t (ProgramStep.load_zero f g) = ground arith
asleep-Stuck ws n e t (ProgramStep.load_more f g) = ground arith
asleep-Stuck ws n e t (ProgramStep.sleep f g) = ground arith
asleep-Stuck ws n e t (ProgramStep.repeat f g) = ground arith

alive-ended_of : (c : ℕ) → alive (ended_of c) ≡ 0
alive-ended_of zero = refl
alive-ended_of (suc c) = alive-ended_of c

-- The program can hang, for any number of threads from 1 to 2 ^ 32 - 1 and any number of wakes: there is a run after
-- which all threads have ended, the count is 0, the task sleeps, and nothing can move. Each thread
-- counts itself down after its last wake, so that the task may see a count that is not 0 yet, and
-- nobody wakes it when the count has become 0.
pub program-hangs :
    (m k : ℕ)
    → 0 < m
    → m < 2 ^ 32
    → (s : Program) × ProgramReach m k s
      × Stuck s
      × (s.task.phase ≡ sleeping)
      × (s.n ≡ 0)
      × (alive s.wakers ≡ 0)
program-hangs m k pos small =
    let ne : m ≢ 0 = λ e. omega (arith, e, pos) in
    let (w, woken) = wake_all m false [] m start in
    let slept = fall_asleep w (wakers_of m 0) m ne woken in
    (
      asleep (ended_of m) 0,
      count_all m [] small slept,
      asleep-Stuck (ended_of m) 0 (alive-ended_of m),
      refl,
      refl,
      alive-ended_of m,
    )
