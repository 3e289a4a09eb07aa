-- ===== src/Memory/Laws.antt =====
-- What is allocated and dropped is as it was before.
use yaay_rs.Base.{◌≡◌, ◌≢◌, refl, ◌∷◌, ◌⊎◌, inl, inr, none, some, arith, beq_refl, ℕ_discrete}
use yaay_rs.Task.Heap.{Ptr, null}
use yaay_rs.Memory.{
  uninit, init, Memory, put, do_alloc, do_new, do_drop_in_place, do_dealloc, do_drop,
}

-- What `do_drop` leaves of the memory `m` before `do_new`: the drop of `value` has run, nothing else
-- differs, and a second `do_drop` would be undefined behaviour.
pub record Restored {A : Type 0} (p : Ptr) (value : A) (m m2 : Memory A) : Type 0 where
  pub cells : (a : Ptr) → m2.cells a ≡ m.cells a
  pub dropped : m2.dropped ≡ value ∷ m.dropped
  pub gone : do_drop p m2 ≡ none

module _ {A : Type 0} (p : Ptr) where
  -- The memory after the drop of the value at `p`
  abbrev dropped_at : A → Memory A → Memory A
  dropped_at value m = put (record (put m p (some uninit)) { dropped = value ∷ m.dropped }) p none

  do_new-put :
      (value : A) (m : Memory A)
      → p ≢ null
      → do_new p value m ≡ some (some p, put (put m p (some uninit)) p (some (init value)))
  unfolding do_new do_alloc
  do_new-put value m ne = ground arith

  do_drop-init :
      (value : A) (m : Memory A)
      → m.cells p ≡ some (init value)
      → do_drop p m ≡ some (dropped_at value m)
  unfolding do_drop do_drop_in_place do_dealloc
  do_drop-init value m at = ground (arith, at)

  do_drop-none : (m : Memory A) → m.cells p ≡ none → do_drop p m ≡ none
  unfolding do_drop do_drop_in_place
  do_drop-none m at = ground (arith, at)

module _ {A : Type 0} (p : Ptr) (value : A) (m : Memory A) where
  -- `do_new` returns no pointer and changes nothing when the allocator has returned null. Otherwise it
  -- returns a pointer to the value, and `do_drop` of it runs the drop of the value once and leaves the
  -- memory as it was before, given that the allocator returns an address that is not in use.
  pub do_new-do_drop :
      m.cells p ≡ none
      → ((p ≡ null) × (do_new p value m ≡ some (none, m)))
        ⊎ ((m1 m2 : Memory A) × (p ≢ null)
            × (do_new p value m ≡ some (some p, m1))
            × (m1.cells p ≡ some (init value))
            × (do_drop p m1 ≡ some m2)
            × Restored p value m m2)
  unfolding do_new do_alloc
  do_new-do_drop vacant = elim (ℕ_discrete p null) [
    | yes e ↦ inl (e, rw e refl)
    | no ne ↦ inr (
      put (put m p (some uninit)) p (some (init value)),
      dropped_at p value (put (put m p (some uninit)) p (some (init value))),
      ne,
      do_new-put p value m ne,
      rw (beq_refl p) refl,
      do_drop-init p value _ (rw (beq_refl p) refl),
      record {
        cells = λ a. ground (arith, vacant);
        dropped = refl;
        gone = do_drop-none p _ (rw (beq_refl p) refl);
      },
    )
  ]
