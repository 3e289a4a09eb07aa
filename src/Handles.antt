-- ===== src/Handles.antt =====
-- The handles of mio's sources (yaay-mio/src/container.rs), and the calls of yaay-mio/src/net that make
-- them: the choice of a reactor thread, the entry in its slab, the registration, and all drops.
mod Calls
pub mod Lifecycle
pub mod RoundRobin
pub mod Examples
use yaay_rs.Base.{
  bind, ℕ, ◌+◌, ◌%◌, ◌^◌, ◌==◌, Bool, List, [], ◌∷◌, Option, none, some, length, get_elem?, set,
  if◌then◌else◌,
}
use yaay_rs.Task.Heap.{Ptr, null}
use yaay_rs.Registry.{Slab, slot, store, install_readable, install_writable, del, check_closed}
use yaay_rs.Io.{IoResult, ok, err}

-- The `Ready` of a registration
pub data Interest : Type 0 where
  readable : Interest
  writable : Interest
  readable_or_writable : Interest

-- `LocalData`; `registered` is what its `poll` knows of each token.
pub record LocalData : Type 0 where
  pub registered : ℕ → Option Interest
  pub dispatchers : Slab
  pub deferred_remove : List ℕ  -- the last key comes first

pub record GlobalData : Type 0 where
  pub locals : List LocalData
  pub counter : ℕ

-- `MIOCell`, without the source that it holds
pub record MioCell : Type 0 where
  pub local_i : ℕ
  pub key : ℕ

-- `LocalData::get_i`; out of bounds is undefined behaviour.
abbrev pub with_local : ℕ → (LocalData → Option LocalData) → GlobalData → Option GlobalData
with_local i f g =
    bind (get_elem? g.locals i) λ l. bind (f l) λ l'. some (record g { locals = set g.locals i l' })

abbrev pub with_dispatchers : (Slab → Option Slab) → LocalData → Option LocalData
with_dispatchers f l = bind (f l.dispatchers) λ slab. some (record l { dispatchers = slab })

-- `counter.fetch_add(1) % locals.len()`; the remainder by 0 panics.
unfoldable pub choose : GlobalData → Option (ℕ × GlobalData)
choose g =
    if length g.locals == 0
    then none
    else some (g.counter % length g.locals, record g { counter = (g.counter + 1) % 2 ^ 64 })

abbrev pub store_interest : (ℕ → Option Interest) → ℕ → Option Interest → ℕ → Option Interest
store_interest f k o j = if j == k then o else f j

-- `vacant` is the key that `Slab::insert` returns; `registers` says whether `poll.register` succeeds,
-- without which `unwrap` panics.
module _ (vacant : Slab → ℕ) (registers : LocalData → ℕ → Interest → Bool) where
  -- `dispatchers.lock().insert(Slot::new())` and `poll.register`
  abbrev pub enter : Interest → ℕ → LocalData → Option (MioCell × LocalData)
  enter ready i l =
      let key = vacant l.dispatchers in
      let l' : LocalData = record l {
        dispatchers = store l.dispatchers key (some (slot null null));
      } in
      if registers l' key ready
      then some (
        record { local_i = i; key = key },
        record l' { registered = store_interest l.registered key (some ready) },
      )
      else none

  -- What the three constructors of `MIOHandle` do
  unfoldable pub new_handle : Interest → GlobalData → Option (MioCell × GlobalData)
  new_handle ready g = bind (choose g) λ (i, g1). bind (get_elem? g1.locals i) λ l.
      bind (enter ready i l) λ (cell, l'). some (cell, record g1 { locals = set g1.locals i l' })

  -- `MIOHandle::new_r`
  unfoldable pub new_r : GlobalData → Option (MioCell × GlobalData)
  new_r g = new_handle readable g

  -- `MIOHandle::new_w`
  unfoldable pub new_w : GlobalData → Option (MioCell × GlobalData)
  new_w g = new_handle writable g

  -- `MIOHandle::new_rw`, whose two handles hold the same cell
  unfoldable pub new_rw : GlobalData → Option ((MioCell × MioCell) × GlobalData)
  new_rw g = bind (new_handle readable_or_writable g) λ (cell, g'). some ((cell, cell), g')

  -- `TcpStream::connect`, given what `connect` of mio returns
  unfoldable pub connect :
      IoResult (Unit {0}) → GlobalData → Option (IoResult (MioCell × MioCell) × GlobalData)
  connect (err e) g = some (err e, g)
  connect (ok _) g = bind (new_rw g) λ (handles, g'). some (ok handles, g')

  -- `TcpListenerHandle::bind`, given what `bind` of mio returns
  unfoldable pub bind_listener :
      IoResult (Unit {0}) → GlobalData → Option (IoResult MioCell × GlobalData)
  bind_listener (err e) g = some (err e, g)
  bind_listener (ok _) g = bind (new_r g) λ (handle, g'). some (ok handle, g')

-- `MIO::new_r` for a dispatcher at `p`: `reader` of a stream and `acceptor` of a listener
unfoldable pub new_reader : MioCell → Ptr → GlobalData → Option GlobalData
new_reader cell p = with_local cell.local_i (with_dispatchers (install_readable p cell.key))

-- `MIO::new_w`: `writer` of a stream
unfoldable pub new_writer : MioCell → Ptr → GlobalData → Option GlobalData
new_writer cell p = with_local cell.local_i (with_dispatchers (install_writable p cell.key))

-- The drop of a `MIO`, whose dispatcher is at `p`
unfoldable pub drop_mio : MioCell → Ptr → GlobalData → Option GlobalData
drop_mio cell p = with_local cell.local_i (with_dispatchers (del p cell.key))

-- The drop of the `MIOCell`, once both handles are dropped
unfoldable pub drop_cell : MioCell → GlobalData → Option GlobalData
drop_cell cell = with_local cell.local_i λ l.
    let l1 : LocalData = record l { registered = store_interest l.registered cell.key none } in
    bind (check_closed cell.key l1.dispatchers) λ slab.
      some (record l1 { dispatchers = slab; deferred_remove = cell.key ∷ l.deferred_remove })
