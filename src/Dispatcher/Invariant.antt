-- ===== src/Dispatcher/Invariant.antt =====
-- What every interleaving of the owner and the reactor keeps.
use yaay_rs.Base.{◌+◌, ◌≤◌, ◌≡◌, Bool, true, false, ◌||◌, not, arith}
use yaay_rs.Task.Status.{digit}
use yaay_rs.Dispatcher.{
  is_parked, IoCell, Client, absent, blocked, waiting, removed, gone, Reactor, fetched, locked,
  notifying, waking, ReactorMove, IoMove, IoReach, start, later,
}

abbrev pub is_waiting : Client → Bool
is_waiting waiting = true
is_waiting _ = false

abbrev pub is_blocked : Client → Bool
is_blocked blocked = true
is_blocked _ = false

abbrev pub is_gone : Client → Bool
is_gone gone = true
is_gone _ = false

abbrev pub has_slot : Client → Bool
has_slot absent = false
has_slot removed = false
has_slot gone = false
has_slot _ = true

-- The reactor has the event and has not yet looked at the status.
abbrev pub is_coming : Reactor → Bool
is_coming fetched = true
is_coming locked = true
is_coming notifying = true
is_coming _ = false

abbrev pub is_waking : Reactor → Bool
is_waking waking = true
is_waking _ = false

-- In `notify`, whose steps read and write the dispatcher.
abbrev pub in_notify : Reactor → Bool
in_notify notifying = true
in_notify waking = true
in_notify _ = false

pub record Inv (m : IoCell) (c : Client) (r : Reactor) : Type 0 where
  pub slot : m.in_slot ≡ has_slot c
  pub freed : m.freed ≡ is_gone c
  pub used : in_notify r ≡ true → m.in_slot ≡ true
  pub blocked_ready :
      is_blocked c ≡ true → m.ready ≡ true → (m.event || (is_coming r || m.status.notified)) ≡ true
  pub waiting_ready :
      is_waiting c ≡ true
      → m.ready ≡ true
      → (m.event || (is_coming r || (is_waking r || m.woken))) ≡ true
  pub waiting_bits :
      is_waiting c ≡ true → (is_waking r || m.woken) ≡ false → is_parked m.status ≡ true
  pub notified_muted : m.status.notified ≡ true → m.status.muted ≡ true
  pub counted : m.wakes + digit (is_waking r) + digit (not m.status.muted) ≤ m.parks

pub ReactorMove-Inv :
    {m m' : IoCell} {c : Client} {r r' : Reactor} → ReactorMove m r m' r' → Inv m c r → Inv m' c r'
ReactorMove-Inv (ReactorMove.fetch e) v = ground arith
ReactorMove-Inv ReactorMove.lock v = ground arith
ReactorMove-Inv (ReactorMove.find e) v = ground arith
ReactorMove-Inv (ReactorMove.skip e) v = ground arith
ReactorMove-Inv ReactorMove.swap v = ground arith
ReactorMove-Inv ReactorMove.wake v = ground arith
ReactorMove-Inv ReactorMove.unlock v = ground arith

Move-Inv :
    {m m' : IoCell} {c c' : Client} {r r' : Reactor}
    → IoMove m c r m' c' r'
    → Inv m c r
    → Inv m' c' r'
Move-Inv (IoMove.install e) v = ground arith
Move-Inv IoMove.prepare v = ground arith
Move-Inv (IoMove.io_done still) v = ground arith
Move-Inv IoMove.io_error v = ground arith
Move-Inv (IoMove.io_would_block e) v = ground arith
Move-Inv (IoMove.cas e) v = ground arith
Move-Inv (IoMove.cas_other e) v = ground arith
Move-Inv (IoMove.cas_again e) v = v
Move-Inv IoMove.resume v = ground arith
Move-Inv (IoMove.del {c} {r} e f) v = ground arith
Move-Inv IoMove.free v = ground arith
Move-Inv IoMove.arrive v = ground arith
Move-Inv IoMove.spurious v = ground arith
Move-Inv (IoMove.by_reactor mv) v = ReactorMove-Inv mv v

pub Reach-Inv : {m : IoCell} {c : Client} {r : Reactor} → IoReach m c r → Inv m c r
Reach-Inv start = ground arith
Reach-Inv (later reach mv) = Move-Inv mv (Reach-Inv reach)
