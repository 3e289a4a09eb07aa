-- ===== src/Teardown/Collect.antt =====
-- All queues are joined into one list, with no change to any task but its `next` pointer.
use mathlib.Core.List.{append_assoc, append-nil}
use yaay_rs.Base.{
  ℕ, suc, ◌≡◌, ◌≢◌, refl, sym, ◌∙◌, List, [], ◌∷◌, ◌++◌, Option, some, get_elem?, arith, beq-ne,
  get_elem?-of_lt, lt_of_get_elem?,
}
use yaay_rs.Task.Heap.{Ptr, null, Heap}
use yaay_rs.TaskList.Defs.{TaskList, push_back_batch, pop_all, is_empty}
use yaay_rs.TaskList.Chain.{Disjoint, Absent, IsList, Chain-head}
use yaay_rs.TaskList.Alike.{Alike, join-Alike}
use yaay_rs.Shared.View.{Contents, Holds, Holds-frame}
use yaay_rs.Shared.Locked.{tail-Absent}
use yaay_rs.Teardown.{collect}

abbrev pub concat : Contents → List Ptr
concat [] = []
concat (xs ∷ c) = xs ++ concat c

append-Disjoint : (xs ys zs : List Ptr) → Disjoint xs zs → Disjoint ys zs → Disjoint (xs ++ ys) zs
append-Disjoint [] ys zs a b = b
append-Disjoint (x ∷ xs) ys zs a b = (a.0, append-Disjoint xs ys zs a.1 b)

-- The collected tasks `xs` are in no queue.
abbrev pub Apart : List Ptr → Contents → Type 0
Apart xs c = (j : ℕ) (zs : List Ptr) → get_elem? c j ≡ some zs → Disjoint xs zs

tail-Holds :
    {h : Heap} {m : TaskList} {qs : List TaskList} {ys : List Ptr} {c : Contents}
    → Holds h (m ∷ qs) (ys ∷ c)
    → Holds h qs c
tail-Holds v = record {
  sized = omega (arith, v.sized);
  lists = λ i. v.lists (suc i);
  apart = λ i j xs zs ne. v.apart (suc i) (suc j) xs zs (λ e. ne (omega (arith, e)));
}

module _ (l m : TaskList) (qs : List TaskList) (h : Heap) (r : Option (TaskList × Heap)) where
  collect-empty : m.head ≡ null → collect qs l h ≡ r → collect (m ∷ qs) l h ≡ r
  unfolding collect is_empty
  collect-empty e ran = rw e ran

  collect-push :
      {l1 : TaskList} {g : Heap}
      → m.head ≢ null
      → push_back_batch l m h ≡ some (l1, g)
      → collect qs l1 g ≡ r
      → collect (m ∷ qs) l h ≡ r
  unfolding collect is_empty pop_all
  collect-push ne pushed ran = rw (beq-ne m.head null ne, pushed) ran

-- The queues are joined in the order of the workers.
pub collect-Alike :
    (h : Heap) (qs : List TaskList) (c : Contents) (l : TaskList) (xs : List Ptr)
    → Holds h qs c
    → IsList h l xs
    → Apart xs c
    → (l' : TaskList) × (g : Heap) × (collect qs l h ≡ some (l', g))
      × IsList g l' (xs ++ concat c)
      × Alike h g
unfolding collect
collect-Alike h [] [] l xs v is apart = (l, h, refl, rw append-nil is, λ a. refl)
collect-Alike h [] (ys ∷ c) l xs v is apart = absurd (omega (arith, v.sized))
collect-Alike h (m ∷ qs) [] l xs v is apart = absurd (omega (arith, v.sized))
collect-Alike h (m ∷ qs) ([] ∷ c) l xs v is apart =
    let (l', g, ran, joined, alike) =
      collect-Alike h qs c l xs (tail-Holds v) is (λ j. apart (suc j)) in
    (l', g, collect-empty l m qs h _ (v.lists 0 m [] refl refl).0 ran, joined, alike)
collect-Alike h (m ∷ qs) ((y ∷ ys) ∷ c) l xs v is apart =
    let is_m = v.lists 0 m (y ∷ ys) refl refl in
    let ne : m.head ≢ null = λ e. (Chain-head y ys is_m.2).ne_null (sym is_m.0 ∙ e) in
    let (l1, g1, ran1, is1, same, alike1) =
      join-Alike h l m xs y ys is is_m (apart 0 (y ∷ ys) refl) in
    let rest_apart : Apart (xs ++ y ∷ ys) c = λ j zs at.
      append-Disjoint xs (y ∷ ys) zs (apart (suc j) zs at)
        (v.apart 0 (suc j) (y ∷ ys) zs (λ e. omega (arith, e)) refl at) in
    let out : (j : ℕ) (zs : List Ptr) → get_elem? c j ≡ some zs → Absent l.tail zs = λ j zs at.
      let (n, at_q) = get_elem?-of_lt qs j (omega (arith, v.sized, lt_of_get_elem? c j zs at)) in
      tail-Absent h l n xs zs is (v.lists (suc j) n zs at_q at) (apart (suc j) zs at) in
    let (l2, g2, ran2, joined, alike2) =
      collect-Alike g1 qs c l1 (xs ++ y ∷ ys) (Holds-frame g1 l.tail (tail-Holds v) same out) is1
        rest_apart in
    (
      l2,
      g2,
      collect-push l m qs h _ ne ran1 ran2,
      rw (← append_assoc xs (y ∷ ys) (concat c)) joined,
      λ a. alike2 a ∙ alike1 a,
    )
