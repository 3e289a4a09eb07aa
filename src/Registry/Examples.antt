-- ===== src/Registry/Examples.antt =====
-- One source with a reader, and then without any, and the theorems there.
use yaay_rs.Base.{
  ℕ, ◌+◌, ◌≡◌, ◌≢◌, ◌⊎◌, inr, zero, suc, sym, refl, false, none, some, [], ◌∷◌, arith,
}
use yaay_rs.Task.Heap.{Ptr, null}
use yaay_rs.Registry.{
  slot, install_readable, Cell, fresh, live, failed, Registry, At, RegistryStep, RegistryReach,
  begin, later,
}
use yaay_rs.Registry.Invariant.{count, removes}
use yaay_rs.Registry.Safety.{registry-not_faulted, live-slot, IsDropped, slots_reclaimed}

record Run : Type 0 where
  last : Registry
  reach : RegistryReach last

seven-ne_null : 7 ≢ null
seven-ne_null = omega arith

-- Cell 0 has the key 3 and a reader at address 7, and the reactor has an event for it.
abbrev read_run : Run
unfolding install_readable
read_run = record {
  last = _;
  reach =
      later
        (later
          (later (later (begin (fresh ∷ []) (refl, tt)) (RegistryStep.insert 0 3 refl refl refl))
            (RegistryStep.register 0 refl))
          (RegistryStep.new_r 0 7 refl refl seven-ne_null seven-ne_null))
        (RegistryStep.poll (3 ∷ []) refl (refl, tt));
}

registry-not_faulted_example : read_run.last.faulted ≡ false
unfolding install_readable
registry-not_faulted_example = registry-not_faulted read_run.reach

live-slot_example :
    (read_run.last.slab 3 ≡ some (slot 7 null))
    × (count 3 read_run.last.deferred + removes 3 read_run.last.loop ≡ 0)
    × ((j : ℕ) (r' w' : Ptr) → At read_run.last j (live 3 r' w') → j ≡ 0)
unfolding install_readable
live-slot_example = live-slot read_run.reach 0 refl

-- One source, whose registration with the key 4 has failed
abbrev leaked_run : Run
leaked_run = record {
  last = _;
  reach =
      later (later (begin (fresh ∷ []) (refl, tt)) (RegistryStep.insert 0 4 refl refl refl))
        (RegistryStep.register_fails 0 refl);
}

leaked-IsDropped : (i : ℕ) (c : Cell) → At leaked_run.last i c → IsDropped c
leaked-IsDropped zero c at = let e : failed 4 ≡ c = cc in inr (4, sym e)
leaked-IsDropped (suc i) c at = absurd (ground arith)

slots_reclaimed_example :
    ((leaked_run.last.slab 4 ≡ none) ⊎ ((i : ℕ) × At leaked_run.last i (failed 4)))
    × ((i : ℕ) → At leaked_run.last i (failed 4) → leaked_run.last.slab 4 ≡ some (slot null null))
slots_reclaimed_example = slots_reclaimed leaked_run.reach leaked-IsDropped refl refl 4
