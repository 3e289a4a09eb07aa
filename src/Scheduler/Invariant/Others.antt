-- ===== src/Scheduler/Invariant/Others.antt =====
-- The steps of the threads that push tasks, and the waking of the sleepers.
use yaay_rs.Base.{ℕ, ◌+◌, ◌≤◌, ◌<◌, ◌≡◌, refl, arith, List, total}
use yaay_rs.Epoch.Defs.{next_epoch}
use yaay_rs.Epoch.Fields.{active_count-mod}
use yaay_rs.Scheduler.Machine.{Mem, Pc, draining, parked, unpark, push_mem, bump_mem}
use yaay_rs.Scheduler.Facts.{Fact, Grows}
use yaay_rs.Scheduler.Invariant.Moves.{active, idle, alarm, Word}

pub active-or_idle : (p : Pc) → active p + idle p ≡ 1
active-or_idle draining = refl
active-or_idle _ = refl

pub active-unpark : (p : Pc) → active (unpark p) ≡ active p
active-unpark draining = refl
active-unpark (parked _ _ _ _) = refl
active-unpark _ = refl

pub alarm-unpark : (p : Pc) → alarm (unpark p) ≡ alarm p
alarm-unpark draining = refl
alarm-unpark (parked _ _ _ _) = refl
alarm-unpark _ = refl

-- Nothing is said of a worker that has just been woken, and the other facts do not name the alarms.
pub Fact-unpark :
    (n : ℕ) (m : Mem) (b b' w : ℕ) (p : Pc) → Fact n m b w p → Fact n m b' w (unpark p)
Fact-unpark n m b b' w (parked _ _ _ _) f = tt
Fact-unpark n m b b' w draining f = tt
Fact-unpark n m b b' w _ f = f

-- A push to queue `i` by a thread that will announce it.
pub push-Grows :
    (m : Mem) (i x b w : ℕ)
    → 0 < x
    → m.pushers ≤ x
    → Grows m (record (push_mem m i) { pushers = x }) b b w
push-Grows m i x b w dirty more = ground arith

-- `next_epoch`, by one of `m.pushers` threads or by another.
pub announce-Grows :
    (m : Mem) (more x a w : ℕ)
    → Grows m
        (record (bump_mem m more) { pushers = x })
        (m.wakers + a)
        ((bump_mem m more).wakers + a)
        w
unfolding next_epoch
announce-Grows m more x a w = ground (arith, active_count-mod m.status)

pub bump-Grows :
    (m : Mem) (more a w : ℕ)
    → Grows m (bump_mem m more) (m.wakers + a) ((bump_mem m more).wakers + a) w
bump-Grows m more a w = announce-Grows m more m.pushers a w

pub announce-Word :
    (m : Mem) (more : ℕ) (ws : List Pc)
    → total active ws < 512
    → Word m ws
    → Word (bump_mem m more) ws
unfolding next_epoch
announce-Word m more ws few word = omega arith

-- After the sleepers have been woken there is no fact about alarms.
pub unpark-Grows : (m : Mem) (x b w : ℕ) → Grows m (record m { wakers = x }) 0 b w
unpark-Grows m x b w = ground arith

pub wait-Grows : (m : Mem) (d b w : ℕ) → Grows m (record m { clock = m.clock + d }) b b w
wait-Grows m d b w = ground arith
