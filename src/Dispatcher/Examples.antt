-- ===== src/Dispatcher/Examples.antt =====
-- A dispatcher whose task parks and whose source then becomes ready, and the theorems there.
use yaay_rs.Base.{◌≡◌, true, ◌||◌, refl}
use yaay_rs.Dispatcher.{
  is_parked, IoCell, Client, waiting, Reactor, notifying, polling, ReactorMove, IoMove, IoReach,
  start, later,
}
use yaay_rs.Dispatcher.Invariant.{is_coming}
use yaay_rs.Dispatcher.Safety.{Wakes, ready-woken, waiting-armed}

-- A state with the moves that lead to it.
record Run (c : Client) (r : Reactor) : Type 0 where
  last : IoCell
  reach : IoReach last c r

-- The task has parked.
abbrev parked : Run waiting polling
parked = record {
  last = _;
  reach =
      later
        (later (later (later start (IoMove.install refl)) IoMove.prepare)
          (IoMove.io_would_block refl))
        (IoMove.cas refl);
}

-- The source is ready, and mio is yet to report it.
abbrev arrived : Run waiting polling
arrived = record { last = _; reach = later parked.reach IoMove.arrive }

-- The reactor is in `notify`.
abbrev found : Run waiting notifying
found = record {
  last = _;
  reach =
      later
        (later (later arrived.reach (IoMove.by_reactor (ReactorMove.fetch refl)))
          (IoMove.by_reactor ReactorMove.lock))
        (IoMove.by_reactor (ReactorMove.find refl));
}

ready-woken_example : Wakes arrived.last polling
ready-woken_example = ready-woken arrived.reach refl refl

waiting-armed_example :
    (is_parked arrived.last.status ≡ true)
    × (arrived.last.ready ≡ true → (arrived.last.event || is_coming polling) ≡ true)
waiting-armed_example = waiting-armed arrived.reach refl refl refl
