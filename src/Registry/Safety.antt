-- ===== src/Registry/Safety.antt =====
-- What holds of the slots in every reachable state.
use yaay_rs.Base.{
  ℕ, ◌+◌, ◌≡◌, refl, false, Option, none, some, [], total-get, total-get_two, total-find, subst,
  ◌<◌, ◌⊎◌, inl, inr, arith, ap, ℕ_discrete,
}
use yaay_rs.Task.Heap.{Ptr, null}
use yaay_rs.Registry.{Slot, slot, Cell, live, failed, gone, polling, Registry, At, RegistryReach}
use yaay_rs.Registry.Invariant.{occ, holds, count, removes, occ-le_one, Inv}
use yaay_rs.Registry.Cells.{Reach-Inv}

-- No event, no removal and no drop meets a vacant key, no dispatcher is installed over another or
-- missing when it is dropped, and a cell that is dropped finds its slot without dispatchers.
pub registry-not_faulted : {s : Registry} → RegistryReach s → s.faulted ≡ false
registry-not_faulted r = (Reach-Inv r).sound

-- The slot of a registered source holds the dispatchers of its reader and its writer, no other source
-- has the same key, and the key is neither in the list of deferred removals nor about to be removed.
pub live-slot :
    {s : Registry}
    → RegistryReach s
    → (i : ℕ) {k : ℕ} {r w : Ptr} → At s i (live k r w)
    → (s.slab k ≡ some (slot r w))
      × (count k s.deferred + removes k s.loop ≡ 0)
      × ((j : ℕ) (r' w' : Ptr) → At s j (live k r' w') → j ≡ i)
live-slot {s} reach i {k} {r} {w} at =
    let v = Reach-Inv reach in
    let own : holds k (live k r w) ≡ 1 = ground arith in
    (
      (v.fits i (live k r w) at).0,
      omega (
        arith,
        (v.keys k).owned,
        occ-le_one (s.slab k),
        own,
        total-get (holds k) s.cells i (live k r w) at,
      ),
      λ j r' w' at_j. elim (ℕ_discrete j i) [
        | yes e ↦ e
        | no ne ↦
            let own_j : holds k (live k r' w') ≡ 1 = ground arith in
            absurd (
              omega (
                arith,
                (v.keys k).owned,
                occ-le_one (s.slab k),
                own,
                own_j,
                total-get_two (holds k) s.cells j i (live k r' w') (live k r w) at_j at ne,
              ))
      ],
    )

-- The source is dropped: its cell is gone, or there never was one, since its registration failed.
abbrev pub IsDropped : Cell → Type 0
IsDropped c = (c ≡ gone) ⊎ ((k : ℕ) × (c ≡ failed k))

held-failed : (k : ℕ) (c : Cell) → IsDropped c → 0 < holds k c → c ≡ failed k
held-failed k c done own = elim done [ inl e ↦ absurd (ground arith) | inr (j, e) ↦ ground arith ]

-- Slots are reclaimed, but for those that a failed registration leaves behind: once all sources are
-- dropped and the reactor has worked off the deferred removals, a key is in use exactly if it was
-- inserted for a source whose `poll.register` failed.
pub slots_reclaimed :
    {s : Registry}
    → RegistryReach s
    → ((i : ℕ) (c : Cell) → At s i c → IsDropped c)
    → s.deferred ≡ []
    → s.loop ≡ polling
    → (k : ℕ)
    → ((s.slab k ≡ none) ⊎ ((i : ℕ) × At s i (failed k)))
      × ((i : ℕ) → At s i (failed k) → s.slab k ≡ some (slot null null))
slots_reclaimed {s} reach all empty idle k =
    let v = Reach-Inv reach in (vacant_or_failed v (s.slab k) refl, λ i at. v.fits i (failed k) at)
  where
    vacant_or_failed :
        Inv s → (o : Option Slot) → s.slab k ≡ o → (s.slab k ≡ none) ⊎ ((i : ℕ) × At s i (failed k))
    vacant_or_failed v none e = inl e
    vacant_or_failed v (some o) e =
        let (i, c, at, own) =
          total-find (holds k) s.cells
            (omega (arith, (v.keys k).owned, ap occ e, ap (count k) empty, ap (removes k) idle)) in
        inr (i, subst (At s i) (held-failed k c (all i c at) own) at)
