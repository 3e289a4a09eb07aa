-- ===== src/EventLoop/Removal.antt =====
-- The removal of the deferred keys.
use yaay_rs.Base.{ℕ, ◌≡◌, ◌∙◌, refl, true, false, List, [], ◌∷◌, none, some, arith, ℕ_discrete}
use yaay_rs.TaskList.Chain.{Absent, member}
use yaay_rs.Registry.Calls.{remove-run}
use yaay_rs.Registry.{Slab, Slot, store}
use yaay_rs.EventLoop.{remove_all}

-- The keys are those of distinct slots in use.
abbrev pub Removable : Slab → List ℕ → Type 0
Removable slab [] = Unit
Removable slab (k ∷ ks) = ((slot : Slot) × (slab k ≡ some slot)) × Absent k ks × Removable slab ks

-- Exactly the slots of the keys are vacant now.
abbrev pub Removed : Slab → List ℕ → Slab → Type 0
Removed slab ks slab' =
    (k : ℕ) → (member k ks ≡ true → slab' k ≡ none) × (member k ks ≡ false → slab' k ≡ slab k)

Removable-store :
    (slab : Slab) (k : ℕ) (ks : List ℕ)
    → Absent k ks
    → Removable slab ks
    → Removable (store slab k none) ks
Removable-store slab k [] out r = tt
Removable-store slab k (j ∷ ks) out r =
    ((r.0.0, ground (arith, r.0.1)), r.1, Removable-store slab k ks (ground arith) r.2)

remove_all-step :
    (k : ℕ) (ks : List ℕ) (slab : Slab) (slot : Slot)
    → slab k ≡ some slot
    → remove_all (k ∷ ks) slab ≡ remove_all ks (store slab k none)
unfolding remove_all
remove_all-step k ks slab slot at = let e = remove-run slab k slot at in rw (remove_all, e) refl

pub remove_all-Removed :
    (ks : List ℕ) (slab : Slab)
    → Removable slab ks
    → (slab' : Slab) × (remove_all ks slab ≡ some slab') × Removed slab ks slab'
unfolding remove_all
remove_all-Removed [] slab r = (slab, refl, λ k. (λ e. absurd (ground arith), λ _. refl))
remove_all-Removed (j ∷ ks) slab r =
    let (slab', ran, done) =
      remove_all-Removed ks (store slab j none) (Removable-store slab j ks r.1 r.2) in
    (
      slab',
      remove_all-step j ks slab r.0.0 r.0.1 ∙ ran,
      λ k. elim (ℕ_discrete k j) [
        | yes e ↦ (λ _. rw e ((done j).1 r.1 ∙ ground arith), λ out. absurd (ground arith))
        | no ne ↦ (λ m. (done k).0 (ground arith), λ out. (done k).1 (ground arith) ∙ ground arith)
      ],
    )
