-- ===== src/EventLoop/Grown.antt =====
-- A task is put behind those of one sequence.
use yaay_rs.Base.{
  ℕ, zero, suc, ◌+◌, ◌≡◌, ◌≢◌, ◌∙◌, refl, Bool, true, false, List, [], ◌∷◌, ◌++◌, some, get_elem?,
  set, length, length-set, length-append, total, total-set, ◌≤◌, arith, ℕ_discrete, lt_of_get_elem?,
  get_elem?-set_lt, get_elem?-set_ne, if◌then◌else◌,
}
use yaay_rs.Task.Heap.{Ptr}
use yaay_rs.TaskList.Chain.{member-append}
use yaay_rs.Shared.View.{Contents, Nowhere}
use yaay_rs.Shared.Locked.{Absent-snoc}
use yaay_rs.EventLoop.Facts.{Somewhere}

Nowhere-set :
    (p : Ptr) (d : Contents) (i : ℕ) (xs : List Ptr) (task : Ptr)
    → Nowhere p d
    → p ≢ task
    → get_elem? d i ≡ some xs
    → Nowhere p (set d i (xs ++ task ∷ []))
Nowhere-set p [] i xs task out ne at = tt
Nowhere-set p (ys ∷ d) zero xs task out ne at = (Absent-snoc p xs task (ground arith) ne, out.1)
Nowhere-set p (ys ∷ d) (suc i) xs task out ne at = (out.0, Nowhere-set p d i xs task out.1 ne at)

Somewhere-set :
    (p : Ptr) (d : Contents) (i : ℕ) (xs : List Ptr) (task : Ptr)
    → get_elem? d i ≡ some xs
    → Somewhere p d
    → Somewhere p (set d i (xs ++ task ∷ []))
Somewhere-set p d i xs task at (j, ys, at_j, m) = elim (ℕ_discrete j i) [
  | yes e ↦
      let e_x : xs ≡ ys = cc in
      (
        i,
        xs ++ task ∷ [],
        get_elem?-set_lt d i _ (lt_of_get_elem? d i xs at),
        ground (arith, member-append p xs (task ∷ [])),
      )
  | no ne ↦ (j, ys, get_elem?-set_ne d i j _ ne ∙ at_j, m)
]

Somewhere-new :
    (d : Contents) (i : ℕ) (xs : List Ptr) (task : Ptr)
    → get_elem? d i ≡ some xs
    → Somewhere task (set d i (xs ++ task ∷ []))
Somewhere-new d i xs task at = (
  i,
  xs ++ task ∷ [],
  get_elem?-set_lt d i _ (lt_of_get_elem? d i xs at),
  ground (arith, member-append task xs (task ∷ [])),
)

-- The sequences have grown by the task, unless its status was settled.
pub record Grown (task : Ptr) (settled : Bool) (d d' : Contents) : Type 0 where
  pub sized : length d' ≡ length d
  pub apart : (p : Ptr) → p ≢ task → Nowhere p d → Nowhere p d'
  pub kept : (p : Ptr) → Somewhere p d → Somewhere p d'
  pub found : settled ≡ false → Somewhere task d'
  pub small : total length d' ≤ total length d + 1

pub set-Grown :
    (task : Ptr) (settled : Bool) (d : Contents) (i : ℕ) (xs : List Ptr)
    → get_elem? d i ≡ some xs
    → Grown task settled d (if settled then d else set d i (xs ++ task ∷ []))
set-Grown task true d i xs at = record {
  sized = refl;
  apart = λ p ne out. out;
  kept = λ p there. there;
  found = λ e. absurd (ground arith);
  small = omega arith;
}
set-Grown task false d i xs at = record {
  sized = length-set d i _;
  apart = λ p ne out. Nowhere-set p d i xs task out ne at;
  kept = λ p there. Somewhere-set p d i xs task at there;
  found = λ e. Somewhere-new d i xs task at;
  small = omega (arith, total-set length d i xs (xs ++ task ∷ []) at, length-append xs (task ∷ []));
}
