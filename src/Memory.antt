-- ===== src/Memory.antt =====
-- The wrappers of the allocator (yaay-mt-runtime/src/mem.rs; yaay-mio/src/helper.rs has the same). What
-- address `alloc` returns is an argument.
pub mod Laws
pub mod Examples
use yaay_rs.Base.{ℕ, ◌==◌, if◌then◌else◌, List, [], ◌∷◌, Option, none, some}
use yaay_rs.Task.Heap.{Ptr, null}

-- The memory for one value.
pub data Cell (A : Type 0) : Type 0 where
  uninit : Cell A
  init : A → Cell A

-- `none` where nothing is allocated; `dropped` has the values whose `drop` has run, the last one first.
pub record Memory (A : Type 0) : Type 0 where
  pub cells : Ptr → Option (Cell A)
  pub dropped : List A

module _ {A : Type 0} where
  abbrev pub put : Memory A → Ptr → Option (Cell A) → Memory A
  put m p c = record m { cells = λ a. if a == p then c else m.cells a }

  -- A write through the pointer
  abbrev pub write : Ptr → A → Memory A → Option (Memory A)
  write p data_ m = elim (m.cells p) [ none ↦ none | some c ↦ some (put m p (some (init data_))) ]

  -- `do_alloc`, when `alloc` returns `p`
  unfoldable pub do_alloc : Ptr → Memory A → Option Ptr × Memory A
  do_alloc p m = if p == null then (none, m) else (some p, put m p (some uninit))

  abbrev pub write_new : A → Option Ptr × Memory A → Option (Option Ptr × Memory A)
  write_new data_ (none, m) = some (none, m)
  write_new data_ (some x, m) = elim (write x data_ m) [ none ↦ none | some m' ↦ some (some x, m') ]

  -- `do_new`, when `alloc` returns `p`; `none` is undefined behaviour, here and below.
  unfoldable pub do_new : Ptr → A → Memory A → Option (Option Ptr × Memory A)
  unfolding do_alloc
  do_new p data_ m = write_new data_ (do_alloc p m)

  unfoldable pub do_dealloc : Ptr → Memory A → Option (Memory A)
  do_dealloc p m = elim (m.cells p) [ none ↦ none | some c ↦ some (put m p none) ]

  abbrev pub drop_cell : Ptr → Option (Cell A) → Memory A → Option (Memory A)
  drop_cell p (some (init data_)) m =
      some (record (put m p (some uninit)) { dropped = data_ ∷ m.dropped })
  drop_cell p c m = none

  unfoldable pub do_drop_in_place : Ptr → Memory A → Option (Memory A)
  do_drop_in_place p m = drop_cell p (m.cells p) m

  unfoldable pub do_drop : Ptr → Memory A → Option (Memory A)
  unfolding do_drop_in_place do_dealloc
  do_drop p m = elim (do_drop_in_place p m) [ none ↦ none | some m' ↦ do_dealloc p m' ]
