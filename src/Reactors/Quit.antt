-- ===== src/Reactors/Quit.antt =====
-- The end of the reactor threads: `mio_shutdown` (yaay-mio/src/prelude.rs) with `set_shutdown` and the
-- `while` of each reactor thread (yaay-mio/src/shared.rs), interleaved.
pub mod Ends
pub mod Examples
use yaay_rs.Base.{
  ℕ, zero, suc, ◌+◌, ◌≡◌, Bool, true, false, List, some, get_elem?, set, length, fill,
}

-- Where a reactor thread stands.
pub data Place : Type 0 where
  testing : Place  -- before the load of SHUTDOWN
  serving : Place  -- in a round, at whose start `poll` waits for one second at most
  leaving : Place  -- past the loop
  ended : Place

-- Where the thread in `mio_shutdown` stands; `joining i` is before or in the `join` of handle `i`.
pub data Quitter : Type 0 where
  setting : Quitter
  joining : (i : ℕ) → Quitter
  returned : Quitter

pub record Quit : Type 0 where
  pub flag : Bool  -- SHUTDOWN
  pub reactors : List Place
  pub quitter : Quitter

-- `set_shutdown`
abbrev pub set_shutdown : Quit → Quit
set_shutdown s = record s { flag = true }

abbrev pub go : Quit → ℕ → Place → Quit
go s i p = record s { reactors = set s.reactors i p }

abbrev pub At : Quit → ℕ → Place → Type 0
At s i p = get_elem? s.reactors i ≡ some p

pub data QuitStep (s : Quit) : Quit → Type 0 where
  test_clear : (i : ℕ) → At s i testing → s.flag ≡ false → QuitStep s (go s i serving)
  test_set : (i : ℕ) → At s i testing → s.flag ≡ true → QuitStep s (go s i leaving)
  serve : (i : ℕ) → At s i serving → QuitStep s (go s i testing)
  leave : (i : ℕ) → At s i leaving → QuitStep s (go s i ended)
  store : s.quitter ≡ setting → QuitStep s (record (set_shutdown s) { quitter = joining 0 })
  -- A thread is joined when it has ended.
  join :
      {i : ℕ}
      → s.quitter ≡ joining i
      → At s i ended
      → QuitStep s (record s { quitter = joining (i + 1) })
  finish :
      {i : ℕ}
      → s.quitter ≡ joining i
      → i ≡ length s.reactors
      → QuitStep s (record s { quitter = returned })

-- `n` reactor threads, and the call of `mio_shutdown`
abbrev pub init_quit : ℕ → Quit
init_quit n = record { flag = false; reactors = fill testing n; quitter = setting }

pub data QuitReach (n : ℕ) : Quit → Type 0 where
  start : QuitReach n (init_quit n)
  later : {s t : Quit} → QuitReach n s → QuitStep s t → QuitReach n t
