-- ===== src/Shutdown/Livelock.antt =====
-- A shutdown that does not end: a worker that looks for tasks takes one from its own queue only when the
-- epoch grows or no worker is active, and a worker that has left its main loop counts as active for ever.
use yaay_rs.Base.{ℕ, zero, suc, ◌<◌, ◌≡◌, ◌≢◌, refl, sym, ◌∙◌, subst, false, [], ◌∷◌, arith}
use yaay_rs.Worker.Peers.{ids_from, others_from, other_workers}
use yaay_rs.Shutdown.{
  Pc, draining, turning, searching, reading, comparing, found, popped, spreading, pushing,
  announcing, polled, exited, returned, Halt, At, go, HaltStep, HaltReach, begin, later,
}

-- The steps that lead from one state to another
pub data HaltSteps (s : Halt) : Halt → Type 0 where
  none_yet : HaltSteps s s
  one_more : {t u : Halt} → HaltSteps s t → HaltStep t u → HaltSteps s u

-- A place in the `'task` loop, with a status that is up to date
abbrev Looks : Halt → Pc → Type 0
Looks s (searching e a) = (e ≡ s.epoch) × (a ≡ 1)
Looks s (reading e) = e ≡ s.epoch
Looks s (comparing old e a) = (old ≡ s.epoch) × (e ≡ s.epoch) × (a ≡ 1)
Looks s _ = ⊥

-- Worker 0 has left its main loop, and worker 1 looks for tasks, with one in its own queue.
record Spinning (s : Halt) : Type 0 where
  place : Pc
  workers : s.workers ≡ exited ∷ place ∷ []
  looks : Looks s place
  one_active : s.active ≡ 1
  none_left : (j : ℕ) → j ≢ 1 → s.queues j ≡ 0
  waiting : 0 < s.queues 1
  unset : s.flags 1 ≡ false
  over : s.caller ≡ returned

-- Where worker `i` stands, if it stands anywhere.
record Where (s : Halt) (g : Spinning s) (i : ℕ) (p : Pc) : Type 0 where
  second : i ≡ 1
  there : g.place ≡ p

find : (s : Halt) (g : Spinning s) (i : ℕ) (p : Pc) → At s i p → p ≢ exited → Where s g i p
find s g zero p at ne = absurd (ground (arith, g.workers, at, ne))
find s g (suc zero) p at ne = record { second = refl; there = ground (arith, g.workers, at) }
find s g (suc (suc i)) p at ne = absurd (ground (arith, g.workers, at))

known : (s : Halt) (g : Spinning s) (i : ℕ) (p : Pc) → At s i p → p ≢ exited → Looks s p
known s g i p at ne = subst (Looks s) (find s g i p at ne).there g.looks

-- Worker 1 goes on to look.
moved :
    (s : Halt) (g : Spinning s) (i : ℕ) (p q : Pc)
    → At s i p
    → p ≢ exited
    → Looks s q
    → Spinning (go s i q)
moved s g i p q at ne looks = record {
  place = q;
  workers = ground (arith, g.workers, (find s g i p at ne).second);
  looks = looks;
  one_active = g.one_active;
  none_left = g.none_left;
  waiting = g.waiting;
  unset = g.unset;
  over = g.over;
}

Step-Spinning : {s t : Halt} → Spinning s → HaltStep s t → Spinning t
Step-Spinning {s} g (HaltStep.pop i at task) = absurd (known s g i draining at (λ eq. ground arith))
Step-Spinning {s} g (HaltStep.drained i at e) =
    absurd (known s g i draining at (λ eq. ground arith))
Step-Spinning {s} g (HaltStep.turn i at) = absurd (known s g i turning at (λ eq. ground arith))
Step-Spinning {s} g (HaltStep.resume i at) = absurd (known s g i found at (λ eq. ground arith))
Step-Spinning {s} g (HaltStep.store_flag i at) = absurd (known s g i popped at (λ eq. ground arith))
Step-Spinning {s} g (HaltStep.skip i {t} {rest} at e) =
    absurd (known s g i (spreading (t ∷ rest)) at (λ eq. ground arith))
Step-Spinning {s} g (HaltStep.see i {t} {rest} at e) =
    absurd (known s g i (spreading (t ∷ rest)) at (λ eq. ground arith))
Step-Spinning {s} g (HaltStep.push i {t} {rest} at) =
    absurd (known s g i (pushing t rest) at (λ eq. ground arith))
Step-Spinning {s} g (HaltStep.spread i at) =
    absurd (known s g i (spreading []) at (λ eq. ground arith))
Step-Spinning {s} g (HaltStep.announce i at) =
    absurd (known s g i announcing at (λ eq. ground arith))
Step-Spinning {s} g (HaltStep.leave i at e) = absurd (known s g i polled at (λ eq. ground arith))
Step-Spinning {s} g (HaltStep.stay i at e) = absurd (known s g i polled at (λ eq. ground arith))
Step-Spinning {s} g (HaltStep.steal i j {e} {a} at active ne task) =
    let w = find s g i (searching e a) at (λ eq. ground arith) in
    absurd (omega (arith, task, g.none_left j (λ eq. ne (eq ∙ sym w.second))))
Step-Spinning {s} g (HaltStep.steal_none i {e} {a} at active) =
    moved s g i (searching e a) (reading e) at (λ eq. ground arith)
      (known s g i (searching e a) at (λ eq. ground arith)).0
Step-Spinning {s} g (HaltStep.pop_last i {e} {a} at none_active task) =
    absurd (omega (arith, none_active, (known s g i (searching e a) at (λ eq. ground arith)).1))
Step-Spinning {s} g (HaltStep.wait i {e} {a} at none_active no_task) =
    absurd (omega (arith, none_active, (known s g i (searching e a) at (λ eq. ground arith)).1))
Step-Spinning {s} g (HaltStep.read i {e} at) =
    moved s g i (reading e) (comparing e s.epoch s.active) at (λ eq. ground arith)
      (known s g i (reading e) at (λ eq. ground arith), refl, g.one_active)
Step-Spinning {s} g (HaltStep.pop_newer i {old} {e} {a} at newer task) =
    absurd (omega (arith, newer, known s g i (comparing old e a) at (λ eq. ground arith)))
Step-Spinning {s} g (HaltStep.newer_empty i {old} {e} {a} at newer no_task) =
    absurd (omega (arith, newer, known s g i (comparing old e a) at (λ eq. ground arith)))
Step-Spinning {s} g (HaltStep.not_newer i {old} {e} {a} at older) =
    let looks = known s g i (comparing old e a) at (λ eq. ground arith) in
    moved s g i (comparing old e a) (searching e a) at (λ eq. ground arith) (looks.1, looks.2)
Step-Spinning {s} g (HaltStep.call e) = absurd (ground (arith, e, g.over))
Step-Spinning {s} g (HaltStep.called e) = absurd (ground (arith, e, g.over))

Steps-Spinning : {s t : Halt} → Spinning s → HaltSteps s t → Spinning t
Steps-Spinning g none_yet = g
Steps-Spinning g (one_more run st) = Step-Spinning (Steps-Spinning g run) st

-- Worker 1 always has a step.
Spinning-moves : (s : Halt) (p : Pc) (g : Spinning s) → g.place ≡ p → (u : Halt) × HaltStep s u
Spinning-moves s p g e = go_on p (subst (Looks s) e g.looks) (ground (arith, g.workers, e))
  where
    go_on : (p : Pc) → Looks s p → At s 1 p → (u : Halt) × HaltStep s u
    go_on (searching e a) looks at = (_, HaltStep.steal_none 1 at (λ z. omega (arith, z, looks)))
    go_on (reading e) looks at = (_, HaltStep.read 1 at)
    go_on (comparing old e a) looks at = (_, HaltStep.not_newer 1 at (omega (arith, looks)))
    go_on draining looks at = absurd looks
    go_on turning looks at = absurd looks
    go_on found looks at = absurd looks
    go_on popped looks at = absurd looks
    go_on (spreading rest) looks at = absurd looks
    go_on (pushing t rest) looks at = absurd looks
    go_on announcing looks at = absurd looks
    go_on polled looks at = absurd looks
    go_on exited looks at = absurd looks

pub record Lock : Type 0 where
  pub last : Halt
  pub reach : HaltReach 2 last

-- Worker 1 finds its queue empty; then `shutdown_async` is called, and worker 0 runs its `Shutdown` task
-- to the end; only then worker 1 reads the status.
abbrev pub locked : Lock
unfolding other_workers others_from ids_from
locked = record {
  last = _;
  reach =
      later
        (later
          (later
            (later
              (later
                (later
                  (later
                    (later
                      (later
                        (later
                          (later (later begin (HaltStep.drained 1 refl refl)) (HaltStep.call refl))
                          (HaltStep.call refl))
                        (HaltStep.called refl))
                      (HaltStep.pop 0 refl (omega arith)))
                    (HaltStep.store_flag 0 refl))
                  (HaltStep.see 0 refl refl))
                (HaltStep.push 0 refl))
              (HaltStep.spread 0 refl))
            (HaltStep.announce 0 refl))
          (HaltStep.leave 0 refl refl))
        (HaltStep.turn 1 refl);
}

locked-Spinning : Spinning locked.last
unfolding other_workers others_from ids_from
locked-Spinning = record {
  place = _;
  workers = refl;
  looks = (refl, refl);
  one_active = refl;
  none_left = λ j ne. ground arith;
  waiting = omega arith;
  unset = refl;
  over = refl;
}

-- The shutdown can fail to end: there is a run of two workers after which `shutdown_async` has returned
-- and worker 0 has left its main loop, and from which, whatever happens, worker 1 never sets its flag and
-- keeps a `Shutdown` task in its own queue, while there is always another step. It looked into its queue
-- before the task was pushed, and read the status after the last `next_epoch`, in which worker 0 counts
-- as active.
pub shutdown_livelocks :
    (s : Halt) × HaltReach 2 s
    × (s.caller ≡ returned)
    × At s 0 exited
    × ((t : Halt)
        → HaltSteps s t
        → (t.flags 1 ≡ false) × (0 < t.queues 1) × ((u : Halt) × HaltStep t u))
shutdown_livelocks = (
  locked.last,
  locked.reach,
  locked-Spinning.over,
  ground (arith, locked-Spinning.workers),
  λ t run.
      let g = Steps-Spinning locked-Spinning run in
      (g.unset, g.waiting, Spinning-moves t g.place g refl),
)
