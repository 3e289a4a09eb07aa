-- ===== src/Registry.antt =====
-- The slots of one reactor thread (yaay-mio/src/shared.rs) and the cells of mio's sources that own them
-- (yaay-mio/src/container.rs): insertion, registration, dispatchers, the deferred removal of keys, and
-- the reactor's loop, a critical section at a time.
mod Invariant
pub mod Calls
mod Cells
pub mod Safety
pub mod Examples
use yaay_rs.Base.{
  ℕ, ◌≡◌, ◌≢◌, Bool, true, false, Option, none, some, List, [], ◌∷◌, ◌==◌, if◌then◌else◌, get_elem?,
  set,
}
use yaay_rs.Task.Heap.{Ptr, null}

-- `struct Slot`
pub record Slot : Type 0 where
  pub readable : Ptr
  pub writable : Ptr

abbrev pub slot : Ptr → Ptr → Slot
slot r w = record { readable = r; writable = w }

-- `Slab<Slot>` of the crate slab: the entry of each key.
abbrev pub Slab : Type 0
Slab = ℕ → Option Slot

abbrev pub store : Slab → ℕ → Option Slot → Slab
store slab k s j = if j == k then s else slab j

-- The calls on the slab; `none` is a panic, or undefined behaviour for a vacant key.
abbrev pub with_slot : Slab → ℕ → (Slot → Option Slab) → Option Slab
with_slot slab k body = elim (slab k) [ none ↦ none | some s ↦ body s ]

-- `Dispatcher::new_from_waker`, for `Ready::readable()` and for `Ready::writable()`
unfoldable pub install_readable : Ptr → ℕ → Slab → Option Slab
install_readable p k slab =
    with_slot slab k λ s.
      if s.readable == null then some (store slab k (some (record s { readable = p }))) else none

unfoldable pub install_writable : Ptr → ℕ → Slab → Option Slab
install_writable p k slab =
    with_slot slab k λ s.
      if s.writable == null then some (store slab k (some (record s { writable = p }))) else none

-- `Dispatcher::del`
unfoldable pub del : Ptr → ℕ → Slab → Option Slab
del p k slab = with_slot slab k λ s.
    if s.readable == p
    then some (store slab k (some (record s { readable = null })))
    else (if s.writable == p
        then some (store slab k (some (record s { writable = null })))
        else none)

-- The assertions in the drop of a `MIOCell`
unfoldable pub check_closed : ℕ → Slab → Option Slab
check_closed k slab =
    with_slot slab k
      λ s. if s.readable == null then (if s.writable == null then some slab else none) else none

-- `dispatchers.get_unchecked(key)` for an event
unfoldable pub look_up : ℕ → Slab → Option Slab
look_up k slab = with_slot slab k λ s. some slab

-- `Slab::remove`, which panics on a vacant key
unfoldable pub remove : ℕ → Slab → Option Slab
remove k slab = with_slot slab k λ s. some (store slab k none)

-- Where a `MIOCell` stands, with the dispatchers of its reader and its writer, null if there is none.
pub data Cell : Type 0 where
  fresh : Cell
  inserted : (k : ℕ) → Cell  -- before `poll.register`
  live : (k : ℕ) (r w : Ptr) → Cell
  failed : (k : ℕ) → Cell  -- `poll.register` has failed, and `unwrap` panicked; the source is dropped
  closed : (k : ℕ) → Cell  -- in its drop, after `poll.deregister`
  gone : Cell

-- Where the reactor thread stands, with the keys of the events that are left.
pub data Loop : Type 0 where
  polling : Loop
  fetched : (events : List ℕ) → Loop
  dispatching : (events : List ℕ) → Loop  -- with the lock of `dispatchers`
  draining : Loop  -- head of `'outer`
  removing : (k : ℕ) → Loop

abbrev pub is_free : Loop → Bool
is_free (dispatching _) = false
is_free _ = true

-- `LocalData`, with mio's registrations, and all cells. `faulted` says that a call has gone wrong.
pub record Registry : Type 0 where
  pub slab : Slab
  pub registered : ℕ → Bool
  pub deferred : List ℕ  -- the last key comes first
  pub faulted : Bool
  pub cells : List Cell
  pub loop : Loop

abbrev pub store_bool : (ℕ → Bool) → ℕ → Bool → ℕ → Bool
store_bool f k b j = if j == k then b else f j

-- The state after a call on the slab
abbrev pub settle : Registry → Option Slab → Registry
settle s none = record s { faulted = true }
settle s (some slab) = record s { slab = slab }

abbrev pub go : Registry → ℕ → Cell → Registry
go s i c = record s { cells = set s.cells i c }

abbrev pub At : Registry → ℕ → Cell → Type 0
At s i c = get_elem? s.cells i ≡ some c

abbrev pub AllIn : (ℕ → Bool) → List ℕ → Type 0
AllIn f [] = Unit
AllIn f (k ∷ ks) = (f k ≡ true) × AllIn f ks

-- `Slab::insert` returns a vacant key, and mio reports events of sources that are registered. A cell is
-- dropped after the reader and the writer that borrow its handles.
pub data RegistryStep (s : Registry) : Registry → Type 0 where
  -- `MIOHandle::new_r`, `new_w`, `new_rw`
  insert :
      (i k : ℕ)
      → At s i fresh
      → is_free s.loop ≡ true
      → s.slab k ≡ none
      → RegistryStep s
          (record (go s i (inserted k)) { slab = store s.slab k (some (slot null null)) })
  register :
      (i : ℕ) {k : ℕ}
      → At s i (inserted k)
      → RegistryStep s
          (record (go s i (live k null null)) { registered = store_bool s.registered k true })
  register_fails : (i : ℕ) {k : ℕ} → At s i (inserted k) → RegistryStep s (go s i (failed k))
  -- `MIO::new_r`, `MIO::new_w`; the allocator returns an address that is not in use
  new_r :
      (i : ℕ) {k : ℕ} {w : Ptr} (p : Ptr)
      → At s i (live k null w)
      → is_free s.loop ≡ true
      → p ≢ null
      → p ≢ w
      → RegistryStep s (settle (go s i (live k p w)) (install_readable p k s.slab))
  new_w :
      (i : ℕ) {k : ℕ} {r : Ptr} (p : Ptr)
      → At s i (live k r null)
      → is_free s.loop ≡ true
      → p ≢ null
      → p ≢ r
      → RegistryStep s (settle (go s i (live k r p)) (install_writable p k s.slab))
  -- the drop of a `MIO`
  drop_r :
      (i : ℕ) {k : ℕ} {r w : Ptr}
      → At s i (live k r w)
      → is_free s.loop ≡ true
      → r ≢ null
      → RegistryStep s (settle (go s i (live k null w)) (del r k s.slab))
  drop_w :
      (i : ℕ) {k : ℕ} {r w : Ptr}
      → At s i (live k r w)
      → is_free s.loop ≡ true
      → w ≢ null
      → RegistryStep s (settle (go s i (live k r null)) (del w k s.slab))
  -- the drop of a `MIOCell`
  deregister :
      (i : ℕ) {k : ℕ}
      → At s i (live k null null)
      → RegistryStep s (record (go s i (closed k)) { registered = store_bool s.registered k false })
  defer :
      (i : ℕ) {k : ℕ}
      → At s i (closed k)
      → is_free s.loop ≡ true
      → RegistryStep s
          (settle (record (go s i gone) { deferred = k ∷ s.deferred }) (check_closed k s.slab))
  -- the event loop
  poll :
      (events : List ℕ)
      → s.loop ≡ polling
      → AllIn s.registered events
      → RegistryStep s (record s { loop = fetched events })
  lock :
      {events : List ℕ}
      → s.loop ≡ fetched events
      → RegistryStep s (record s { loop = dispatching events })
  dispatch :
      {k : ℕ} {events : List ℕ}
      → s.loop ≡ dispatching (k ∷ events)
      → RegistryStep s (settle (record s { loop = dispatching events }) (look_up k s.slab))
  unlock : s.loop ≡ dispatching [] → RegistryStep s (record s { loop = draining })
  pop :
      {k : ℕ} {deferred : List ℕ}
      → s.loop ≡ draining
      → s.deferred ≡ k ∷ deferred
      → RegistryStep s (record s { loop = removing k; deferred = deferred })
  remove_key :
      {k : ℕ}
      → s.loop ≡ removing k
      → RegistryStep s (settle (record s { loop = draining }) (remove k s.slab))
  drained : s.loop ≡ draining → s.deferred ≡ [] → RegistryStep s (record s { loop = polling })

abbrev pub AllFresh : List Cell → Type 0
AllFresh [] = Unit
AllFresh (c ∷ cs) = (c ≡ fresh) × AllFresh cs

-- `LocalData::build`, and cells to come
abbrev pub init_registry : List Cell → Registry
init_registry cells = record {
  slab = λ k. none;
  registered = λ k. false;
  deferred = [];
  faulted = false;
  cells = cells;
  loop = polling;
}

pub data RegistryReach : Registry → Type 0 where
  begin : (cells : List Cell) → AllFresh cells → RegistryReach (init_registry cells)
  later : {s t : Registry} → RegistryReach s → RegistryStep s t → RegistryReach t
