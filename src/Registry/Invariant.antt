-- ===== src/Registry/Invariant.antt =====
-- The invariant of the slots, and how a change of one slot keeps it.
use yaay_rs.Base.{
  ℕ, ◌+◌, ◌≤◌, ◌<◌, ◌≡◌, ◌≢◌, true, false, Option, none, some, List, [], ◌∷◌, ◌==◌, if◌then◌else◌,
  get_elem?, set, total, total-get, total-get_two, arith, sym, ◌∙◌, ap, ℕ_discrete,
  get_elem?-set_lt, get_elem?-set_ne, lt_of_get_elem?,
}
use yaay_rs.Task.Heap.{null}
use yaay_rs.Registry.{
  Slot, slot, Slab, store, Cell, fresh, inserted, live, failed, closed, gone, Loop, fetched,
  dispatching, removing, Registry, At,
}

abbrev pub occ : Option Slot → ℕ
occ none = 0
occ (some s) = 1

abbrev pub is_key : ℕ → ℕ → ℕ
is_key k j = if j == k then 1 else 0

-- The cell owns the key, or has left its slot behind `k`.
abbrev pub holds : ℕ → Cell → ℕ
holds k (inserted j) = is_key k j
holds k (live j r w) = is_key k j
holds k (failed j) = is_key k j
holds k (closed j) = is_key k j
holds k _ = 0

-- The cell is registered with the key `k`.
abbrev pub opens : ℕ → Cell → ℕ
opens k (live j r w) = is_key k j
opens k _ = 0

abbrev pub count : ℕ → List ℕ → ℕ
count k [] = 0
count k (j ∷ js) = is_key k j + count k js

abbrev pub removes : ℕ → Loop → ℕ
removes k (removing j) = is_key k j
removes k _ = 0

abbrev pub events_of : Loop → List ℕ
events_of (fetched events) = events
events_of (dispatching events) = events
events_of _ = []

-- The slot of the cell holds its dispatchers.
abbrev pub Fits : Slab → Cell → Type 0
Fits slab (inserted k) = slab k ≡ some (slot null null)
Fits slab (live k r w) = (slab k ≡ some (slot r w)) × (w ≢ null → r ≢ w)
Fits slab (failed k) = slab k ≡ some (slot null null)
Fits slab (closed k) = slab k ≡ some (slot null null)
Fits slab _ = Unit

abbrev pub AllOccupied : Slab → List ℕ → Type 0
AllOccupied slab [] = Unit
AllOccupied slab (k ∷ ks) = (1 ≤ occ (slab k)) × AllOccupied slab ks

pub record KeyInv (k : ℕ) (s : Registry) : Type 0 where
  pub owned : occ (s.slab k) ≡ total (holds k) s.cells + count k s.deferred + removes k s.loop
  pub opened : s.registered k ≡ true → 0 < total (opens k) s.cells

pub record Inv (s : Registry) : Type 0 where
  pub keys : (k : ℕ) → KeyInv k s
  pub fits : (i : ℕ) (c : Cell) → At s i c → Fits s.slab c
  pub events : AllOccupied s.slab (events_of s.loop)
  pub sound : s.faulted ≡ false

pub occ-le_one : (o : Option Slot) → occ o ≤ 1
occ-le_one none = omega arith
occ-le_one (some s) = omega arith

pub opens-le_holds : (k : ℕ) (c : Cell) → opens k c ≤ holds k c
opens-le_holds k (live j r w) = omega arith
opens-le_holds k (inserted j) = omega arith
opens-le_holds k (failed j) = omega arith
opens-le_holds k (closed j) = omega arith
opens-le_holds k c = omega arith

pub AllOccupied-mono :
    (slab slab' : Slab) (ks : List ℕ)
    → ((k : ℕ) → occ (slab k) ≤ occ (slab' k))
    → AllOccupied slab ks
    → AllOccupied slab' ks
AllOccupied-mono slab slab' [] le all = tt
AllOccupied-mono slab slab' (k ∷ ks) le all =
    (omega (arith, le k, all.0), AllOccupied-mono slab slab' ks le all.1)

-- A cell does not notice a change at a key that it does not own.
pub Fits-store :
    (slab : Slab) (k : ℕ) (o : Option Slot) (c : Cell)
    → holds k c ≡ 0
    → Fits slab c
    → Fits (store slab k o) c
Fits-store slab k o fresh e fit = tt
Fits-store slab k o gone e fit = tt
Fits-store slab k o (inserted j) e fit = ground arith
Fits-store slab k o (failed j) e fit = ground arith
Fits-store slab k o (closed j) e fit = ground arith
Fits-store slab k o (live j r w) e fit = (ground (arith, fit.0), fit.1)

-- At most one cell owns a key.
pub others-holds :
    {s : Registry} (v : Inv s) (k i j : ℕ) (c d : Cell)
    → At s i c
    → holds k c ≡ 1
    → j ≢ i
    → At s j d
    → holds k d ≡ 0
others-holds {s} v k i j c d at own ne at_j = omega (
  arith,
  (v.keys k).owned,
  occ-le_one (s.slab k),
  total-get_two (holds k) s.cells j i d c at_j at ne,
)

-- Nobody owns a vacant key.
pub vacant-holds :
    {s : Registry} (v : Inv s) (k j : ℕ) (d : Cell) → s.slab k ≡ none → At s j d → holds k d ≡ 0
vacant-holds {s} v k j d e at_j =
    omega (arith, (v.keys k).owned, ap occ e, total-get (holds k) s.cells j d at_j)

-- The slot `k` becomes `o`, and cell `i`, which owns it or comes to own it, becomes `d`.
pub Fits-set :
    {s : Registry} (v : Inv s) (k i : ℕ) (c d : Cell) (o : Option Slot)
    → At s i c
    → Fits (store s.slab k o) d
    → ((j : ℕ) (e : Cell) → j ≢ i → At s j e → holds k e ≡ 0)
    → (j : ℕ) (e : Cell) → get_elem? (set s.cells i d) j ≡ some e
    → Fits (store s.slab k o) e
Fits-set {s} v k i c d o at fit others j e at_j = elim (ℕ_discrete j i) [
  | yes same ↦
      let e_d : d ≡ e = cc (get_elem?-set_lt s.cells i d (lt_of_get_elem? s.cells i c at)) in
      rw (← e_d) fit
  | no ne ↦
      let at_c : At s j e = sym (get_elem?-set_ne s.cells i j d ne) ∙ at_j in
      Fits-store s.slab k o e (others j e ne at_c) (v.fits j e at_c)
]

-- The slab stays, and cell `i` becomes `d`.
pub Fits-go :
    {s : Registry} (v : Inv s) (i : ℕ) (c d : Cell)
    → At s i c
    → Fits s.slab d
    → (j : ℕ) (e : Cell) → get_elem? (set s.cells i d) j ≡ some e
    → Fits s.slab e
Fits-go {s} v i c d at fit j e at_j = elim (ℕ_discrete j i) [
  | yes same ↦
      let e_d : d ≡ e = cc (get_elem?-set_lt s.cells i d (lt_of_get_elem? s.cells i c at)) in
      rw (← e_d) fit
  | no ne ↦ v.fits j e (sym (get_elem?-set_ne s.cells i j d ne) ∙ at_j)
]
