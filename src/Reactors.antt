-- ===== src/Reactors.antt =====
-- The start of the reactor threads: `GlobalData::build` (yaay-mio/src/shared.rs), with all threads that it
-- spawns, a critical section at a time.
mod Invariant
pub mod Safety
pub mod Quit
pub mod Examples
use yaay_rs.Base.{
  ℕ, zero, suc, ◌≡◌, Bool, true, false, List, [], ◌∷◌, map, some, get_elem?, set, fill,
}
use yaay_rs.Startup.{all_true}

-- Where a reactor thread stands before its event loop.
pub data Thread : Type 0 where
  starting : Thread
  checking : Thread  -- woken in `cond.wait`, before it takes the lock again
  sleeping : Thread  -- in `cond.wait`
  notifying : Thread  -- past its loop, before `notify_all`
  running : Thread

-- Where the thread that calls `build` stands.
pub data Main : Type 0 where
  looking : Main  -- before the test of `while`
  waiting : Main  -- in `cond.wait`
  made : Main  -- it goes on to collect `locals`

-- `ptrs` says which pointers are not null.
pub record Boot : Type 0 where
  pub ptrs : List Bool
  pub threads : List Thread
  pub main : Main

-- The test of `while`, with the lock
abbrev pub after_check : Bool → Thread
after_check true = notifying
after_check false = sleeping

abbrev pub look : Bool → Main
look true = made
look false = waiting

-- `cond.notify_all()`, for one thread
abbrev pub wake_thread : Thread → Thread
wake_thread sleeping = checking
wake_thread p = p

abbrev pub wake_main : Main → Main
wake_main waiting = looking
wake_main w = w

abbrev pub go : Boot → ℕ → Thread → Boot
go s i q = record s { threads = set s.threads i q }

abbrev pub At : Boot → ℕ → Thread → Type 0
At s i p = get_elem? s.threads i ≡ some p

-- One critical section, one `notify_all`, or the end of a wait with no notice.
pub data BootStep (s : Boot) : Boot → Type 0 where
  store :
      (i : ℕ)
      → At s i starting
      → BootStep s (record (go s i (after_check (all_true (set s.ptrs i true)))) {
        ptrs = set s.ptrs i true;
      })
  check : (i : ℕ) → At s i checking → BootStep s (go s i (after_check (all_true s.ptrs)))
  notify :
      (i : ℕ)
      → At s i notifying
      → BootStep s (record s {
        threads = set (map wake_thread s.threads) i running;
        main = wake_main s.main;
      })
  rouse : (i : ℕ) → At s i sleeping → BootStep s (go s i checking)
  look_main : s.main ≡ looking → BootStep s (record s { main = look (all_true s.ptrs) })
  rouse_main : s.main ≡ waiting → BootStep s (record s { main = looking })

-- The state before `n` threads are spawned; a thread that is not spawned yet is starting.
abbrev pub init_boot : ℕ → Boot
init_boot n = record { ptrs = fill false n; threads = fill starting n; main = looking }

pub data BootReach (n : ℕ) : Boot → Type 0 where
  begin : BootReach n (init_boot n)
  later : {s t : Boot} → BootReach n s → BootStep s t → BootReach n t
