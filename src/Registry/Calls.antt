-- ===== src/Registry/Calls.antt =====
-- The calls on a slab where the slot is in use.
use yaay_rs.Base.{ℕ, ◌≡◌, ◌≢◌, some, none, arith}
use yaay_rs.Task.Heap.{Ptr, null}
use yaay_rs.Registry.{
  Slot, slot, Slab, store, with_slot, install_readable, install_writable, del, check_closed, remove,
}

pub install_readable-run :
    (slab : Slab) (k : ℕ) (p w : Ptr)
    → slab k ≡ some (slot null w)
    → install_readable p k slab ≡ some (store slab k (some (slot p w)))
unfolding install_readable
install_readable-run slab k p w at = rw (at, with_slot)

pub install_writable-run :
    (slab : Slab) (k : ℕ) (p r : Ptr)
    → slab k ≡ some (slot r null)
    → install_writable p k slab ≡ some (store slab k (some (slot r p)))
unfolding install_writable
install_writable-run slab k p r at = rw (at, with_slot)

pub del-run_r :
    (slab : Slab) (k : ℕ) (r w : Ptr)
    → slab k ≡ some (slot r w)
    → del r k slab ≡ some (store slab k (some (slot null w)))
unfolding del
del-run_r slab k r w at = ground arith

pub del-run_w :
    (slab : Slab) (k : ℕ) (r w : Ptr)
    → slab k ≡ some (slot r w)
    → r ≢ w
    → del w k slab ≡ some (store slab k (some (slot r null)))
unfolding del
del-run_w slab k r w at ne = ground arith

pub check_closed-run :
    (slab : Slab) (k : ℕ) → slab k ≡ some (slot null null) → check_closed k slab ≡ some slab
unfolding check_closed
check_closed-run slab k at = rw (at, with_slot)

pub remove-run :
    (slab : Slab) (k : ℕ) (s : Slot) → slab k ≡ some s → remove k slab ≡ some (store slab k none)
unfolding remove
remove-run slab k s at = ground (arith, at)
