-- ===== src/TaskList/Alike.antt =====
-- Pushes at the end of a list change no task but its `next` pointer.
use yaay_rs.Base.{
  ℕ, ◌≡◌, ◌≢◌, refl, sym, ap, ◌∙◌, List, [], ◌∷◌, ◌++◌, Option, none, some, arith, ℕ_discrete,
}
use yaay_rs.Task.Heap.{Ptr, null, Heap, Task}
use yaay_rs.TaskList.Defs.{TaskList, task_list, push_back_batch, push_back}
use yaay_rs.TaskList.Chain.{Disjoint, Absent, IsList, Live, Relinked, Returns-get, last-Live}
use yaay_rs.TaskList.Push.{push_back_batch-append, Disjoint-of_Absent}

abbrev pub rc_of : Option Task → ℕ
rc_of none = 0
rc_of (some t) = t.rc

-- A task, whatever its `next` pointer is.
abbrev pub forget : Option Task → Option Task
forget none = none
forget (some t) = some (record t { next = null })

abbrev pub Alike : Heap → Heap → Type 0
Alike h g = (a : Ptr) → forget (g a) ≡ forget (h a)

Relinked-Alike : (h g : Heap) (p : Ptr) → Live h p → Relinked p h g → Alike h g
Relinked-Alike h g p v r a = elim (ℕ_discrete a p) [
  | yes e ↦ let (q, at) = r.1 v.here v.holds in rw e (ap forget at ∙ sym (ap forget v.holds))
  | no ne ↦ ap forget (r.0 a ne)
]

-- A list is put behind the tasks that have been collected.
pub join-Alike :
    (h : Heap) (l m : TaskList) (xs : List Ptr) (y : Ptr) (ys : List Ptr)
    → IsList h l xs
    → IsList h m (y ∷ ys)
    → Disjoint xs (y ∷ ys)
    → (l' : TaskList) × (g : Heap) × (push_back_batch l m h ≡ some (l', g))
      × IsList g l' (xs ++ y ∷ ys)
      × ((a : Ptr) → a ≢ l.tail → g a ≡ h a)
      × Alike h g
unfolding push_back_batch
join-Alike h l m [] y ys is more apart = (m, h, rw is.1 refl, more, λ a ne. refl, λ a. refl)
join-Alike h l m (p ∷ xs) y ys is more apart =
    let (l', g, ran, post) =
      Returns-get (push_back_batch l m h)
        (push_back_batch-append h l m (p ∷ xs) y ys is more apart) in
    (l', g, ran, post.0, post.1.0, Relinked-Alike h g l.tail (rw is.1 (last-Live p xs is.2)) post.1)

pub Alike-rc_of : (o p : Option Task) → forget o ≡ forget p → rc_of o ≡ rc_of p
Alike-rc_of none none e = refl
Alike-rc_of none (some t) e = absurd (ground arith)
Alike-rc_of (some t) none e = absurd (ground arith)
Alike-rc_of (some t) (some u) e = ground arith

pub Alike-some :
    (o : Option Task) (t : Task)
    → forget (some t) ≡ forget o
    → (u : Task) × (o ≡ some u) × (t.rc ≡ u.rc) × (t.status ≡ u.status)
Alike-some none t e = absurd (ground arith)
Alike-some (some u) t e = (u, refl, ground arith, ground arith)

pub Alike-none : (o : Option Task) → forget o ≡ none → o ≡ none
Alike-none none e = refl
Alike-none (some t) e = absurd (ground arith)

-- The same tasks live in both heaps.
pub Alike-Live :
    {h g : Heap} {p : Ptr}
    → Alike h g
    → (v : Live h p)
    → (w : Live g p) × (w.here.status ≡ v.here.status) × (w.here.worker_id ≡ v.here.worker_id)
Alike-Live {h} {g} {p} alike v = of (g p) (alike p ∙ ap forget v.holds) refl
  where
    of :
        (o : Option Task)
        → forget o ≡ forget (some v.here)
        → g p ≡ o
        → (w : Live g p) × (w.here.status ≡ v.here.status) × (w.here.worker_id ≡ v.here.worker_id)
    of none e at = absurd (ground arith)
    of (some t) e at =
        (record { ne_null = v.ne_null; here = t; holds = at }, ground arith, ground arith)

pub push_back-Alike :
    (h : Heap) (l : TaskList) (xs : List Ptr) (task : Ptr)
    → IsList h l xs
    → Live h task
    → Absent task xs
    → (l' : TaskList) × (g : Heap) × (push_back l task h ≡ some (l', g))
      × IsList g l' (xs ++ task ∷ [])
      × ((a : Ptr) → a ≢ l.tail → g a ≡ h a)
      × Alike h g
unfolding push_back
push_back-Alike h l xs task is v out =
    join-Alike h l (task_list task task) xs task [] is (refl, refl, v)
      (Disjoint-of_Absent xs task out)
