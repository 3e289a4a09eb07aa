-- ===== src/Dispatcher/Safety.antt =====
-- What holds of a dispatcher in every state that its two threads reach.
use yaay_rs.Base.{
  ◌≤◌, ◌≡◌, inl, inr, refl, true, false, ◌||◌, if◌then◌else◌, arith, Bool-cases, subst,
}
use yaay_rs.Dispatcher.{
  is_parked, IoCell, Client, waiting, Reactor, polling, fetched, locked, notifying, waking,
  unlocking, ReactorMove, IoReach, swap_mem,
}
use yaay_rs.Dispatcher.Invariant.{Inv, is_coming, is_waking, in_notify, ReactorMove-Inv, Reach-Inv}

-- Moves of the reactor alone, the owner of the dispatcher standing still.
pub data ReactorRun : IoCell → Reactor → IoCell → Reactor → Type 0 where
  stop : {m : IoCell} {r : Reactor} → ReactorRun m r m r
  next :
      {m m' m'' : IoCell} {r r' r'' : Reactor}
      → ReactorMove m r m' r'
      → ReactorRun m' r' m'' r''
      → ReactorRun m r m'' r''

-- The reactor by itself comes to a state in which the waker has been called.
abbrev pub Wakes : IoCell → Reactor → Type 0
Wakes m r = (m' : IoCell) × (r' : Reactor) × ReactorRun m r m' r' × (m'.woken ≡ true)

Wakes-later : {m m' : IoCell} {r r' : Reactor} → ReactorMove m r m' r' → Wakes m' r' → Wakes m r
Wakes-later mv (m', r', run, e) = (m', r', next mv run, e)

Wakes-stop : {m : IoCell} {r : Reactor} → m.woken ≡ true → Wakes m r
Wakes-stop {m} {r} e = (m, r, stop, e)

Wakes-waking : (m : IoCell) → Wakes m waking
Wakes-waking m = Wakes-later ReactorMove.wake (Wakes-stop refl)

swap-waking : (m : IoCell) → is_parked m.status ≡ true → ReactorMove m notifying (swap_mem m) waking
swap-waking m e =
    let mv : ReactorMove m notifying (swap_mem m)
        (if is_parked m.status then waking else unlocking) =
      ReactorMove.swap in
    subst (λ b. ReactorMove m notifying (swap_mem m) (if b then waking else unlocking)) e mv

Wakes-notifying : (m : IoCell) → Inv m waiting notifying → Wakes m notifying
Wakes-notifying m v = elim (Bool-cases m.woken) [
  | inl e ↦ Wakes-stop e
  | inr e ↦ Wakes-later (swap-waking m (v.waiting_bits refl e)) (Wakes-waking (swap_mem m))
]

Wakes-locked : (m : IoCell) → Inv m waiting locked → Wakes m locked
Wakes-locked m v =
    Wakes-later (ReactorMove.find v.slot)
      (Wakes-notifying m (ReactorMove-Inv (ReactorMove.find v.slot) v))

Wakes-fetched : (m : IoCell) → Inv m waiting fetched → Wakes m fetched
Wakes-fetched m v =
    Wakes-later ReactorMove.lock (Wakes-locked m (ReactorMove-Inv ReactorMove.lock v))

Wakes-polling : (m : IoCell) → Inv m waiting polling → m.ready ≡ true → Wakes m polling
Wakes-polling m v ready = elim (Bool-cases m.woken) [
  | inl e ↦ Wakes-stop e
  | inr e ↦
      let reported : m.event ≡ true = ground (arith, v.waiting_ready) in
      Wakes-later (ReactorMove.fetch reported) (
        Wakes-fetched (record m { event = false }) (ReactorMove-Inv (ReactorMove.fetch reported) v))
]

Wakes-all : (m : IoCell) (r : Reactor) → Inv m waiting r → m.ready ≡ true → Wakes m r
Wakes-all m polling v ready = Wakes-polling m v ready
Wakes-all m fetched v ready = Wakes-fetched m v
Wakes-all m locked v ready = Wakes-locked m v
Wakes-all m notifying v ready = Wakes-notifying m v
Wakes-all m waking v ready = Wakes-waking m
Wakes-all m unlocking v ready =
    Wakes-later ReactorMove.unlock (Wakes-polling m (ReactorMove-Inv ReactorMove.unlock v) ready)

-- A task that waits in `wait_io` while its source is ready is woken: the waker has been called since
-- the task parked, or the reactor, by its own moves alone and with no further event, comes to call it.
pub ready-woken :
    {m : IoCell} {c : Client} {r : Reactor}
    → IoReach m c r
    → c ≡ waiting
    → m.ready ≡ true
    → Wakes m r
ready-woken {m} {c} {r} reach e ready = Wakes-all m r (rw (← e) (Reach-Inv reach)) ready

-- While a task is parked in `wait_io` and its waker is neither called nor about to be called, the
-- status has no bit set, and a source that is ready has its event on the way to `notify`.
pub waiting-armed :
    {m : IoCell} {c : Client} {r : Reactor}
    → IoReach m c r
    → c ≡ waiting
    → m.woken ≡ false
    → is_waking r ≡ false
    → (is_parked m.status ≡ true) × (m.ready ≡ true → (m.event || is_coming r) ≡ true)
waiting-armed {m} {c} {r} reach e asleep unsent =
    let v : Inv m waiting r = rw (← e) (Reach-Inv reach) in
    (ground (arith, v.waiting_bits), λ ready. ground (arith, v.waiting_ready))

-- The waker is called at most once for each time that the task parks.
pub wakes-le_parks : {m : IoCell} {c : Client} {r : Reactor} → IoReach m c r → m.wakes ≤ m.parks
wakes-le_parks reach = omega (arith, (Reach-Inv reach).counted)

-- While the reactor is in `notify`, the dispatcher is in its slot and is not freed; once it is freed,
-- the slot is empty.
pub notify-not_freed :
    {m : IoCell} {c : Client} {r : Reactor}
    → IoReach m c r
    → (in_notify r ≡ true → (m.in_slot ≡ true) × (m.freed ≡ false))
      × (m.freed ≡ true → m.in_slot ≡ false)
notify-not_freed {m} {c} reach =
    let v = Reach-Inv reach in
    (λ used. (v.used used, ground (arith, v)), λ freed. ground (arith, v))
