-- ===== src/Batch/Split.antt =====
-- The queues of the workers and the local lists of one thread, which share no task.
use yaay_rs.Base.{
  ℕ, suc, ◌≡◌, refl, List, [], ◌∷◌, ◌++◌, some, get_elem?, set, arith, sym, ◌∙◌, lt_of_get_elem?,
  get_elem?-of_lt, ℕ_discrete, get_elem?-set_lt, get_elem?-set_ne,
}
use yaay_rs.Task.Heap.{Ptr, Heap}
use yaay_rs.TaskList.Defs.{TaskList, push_back_batch}
use yaay_rs.TaskList.Chain.{Disjoint, IsList, member-append}
use yaay_rs.TaskList.Alike.{Alike, join-Alike}
use yaay_rs.Shared.State.{Runtime, lock_push_batch}
use yaay_rs.Shared.View.{Contents, Holds, set-Holds, Holds-frame}
use yaay_rs.Shared.Locked.{Ends, Quiet, tail-Absent, locked, others}

pub record Split (h : Heap) (qs : List TaskList) (c : Contents) (ls : List TaskList) (d : Contents)
    : Type 0 where
  pub queues : Holds h qs c
  pub locals : Holds h ls d
  pub cross :
      (i j : ℕ) (xs ys : List Ptr)
      → get_elem? c i ≡ some xs
      → get_elem? d j ≡ some ys
      → Disjoint xs ys × Disjoint ys xs

Disjoint-append : (xs ys zs : List Ptr) → Disjoint xs zs → Disjoint ys zs → Disjoint (xs ++ ys) zs
Disjoint-append [] ys zs a b = b
Disjoint-append (x ∷ xs) ys zs a b = (a.0, Disjoint-append xs ys zs a.1 b)

append-Disjoint : (zs xs ys : List Ptr) → Disjoint zs xs → Disjoint zs ys → Disjoint zs (xs ++ ys)
append-Disjoint [] xs ys a b = tt
append-Disjoint (z ∷ zs) xs ys a b =
    (ground (arith, member-append z xs ys), append-Disjoint zs xs ys a.1 b.1)

pub Holds-IsList :
    {h : Heap} {qs : List TaskList} {c : Contents} (v : Holds h qs c) (j : ℕ) (ys : List Ptr)
    → get_elem? c j ≡ some ys
    → (m : TaskList) × IsList h m ys
Holds-IsList {h} {qs} {c} v j ys at =
    let (m, at_q) = get_elem?-of_lt qs j (omega (arith, v.sized, lt_of_get_elem? c j ys at)) in
    (m, v.lists j m ys at_q at)

Holds-tail :
    {h : Heap} {l : TaskList} {ls : List TaskList} {xs : List Ptr} {d : Contents}
    → Holds h (l ∷ ls) (xs ∷ d)
    → Holds h ls d
Holds-tail v = record {
  sized = omega (arith, v.sized);
  lists = λ i m ys at_q at_c. v.lists (suc i) m ys at_q at_c;
  apart =
      λ i j ys zs ne at_i at_j. v.apart (suc i) (suc j) ys zs (λ e. ne (ground arith)) at_i at_j;
}

-- The first local list is dropped from the view.
pub Split-tail :
    {h : Heap} {qs : List TaskList} {c : Contents} {l : TaskList} {ls : List TaskList}
    {xs : List Ptr} {d : Contents}
    → Split h qs c (l ∷ ls) (xs ∷ d)
    → Split h qs c ls d
Split-tail v = record {
  queues = v.queues;
  locals = Holds-tail v.locals;
  cross = λ i j ys zs at_i at_j. v.cross i (suc j) ys zs at_i at_j;
}

push_batch-run :
    (i : ℕ) (tasks : TaskList) (rt : Runtime) (l l' : TaskList) (h : Heap)
    → get_elem? rt.queues i ≡ some l
    → push_back_batch l tasks rt.heap ≡ some (l', h)
    → lock_push_batch i tasks rt ≡ some (tt, record rt { heap = h; queues = set rt.queues i l' })
unfolding lock_push_batch
push_batch-run i tasks rt l l' h at ran = ground arith

-- A local list that is not empty is appended to queue `i`, with no change to a task but its `next`.
pub lock_push_batch-Split :
    (rt : Runtime) (c : Contents) (l tasks : TaskList) (ls : List TaskList) (y : Ptr)
    (ys : List Ptr) (d : Contents) (i : ℕ) (xs : List Ptr)
    → Split rt.heap rt.queues c (l ∷ ls) ((y ∷ ys) ∷ d)
    → IsList rt.heap tasks (y ∷ ys)
    → get_elem? c i ≡ some xs
    → Ends
        (λ _ rt'.
          Split rt'.heap rt'.queues (set c i (xs ++ y ∷ ys)) ls d
          × Quiet rt rt'
          × Alike rt.heap rt'.heap)
        (lock_push_batch i tasks rt)
lock_push_batch-Split rt c l tasks ls y ys d i xs v more at =
    let (q, at_q, is) = locked rt c v.queues i xs at in
    let apart : Disjoint xs (y ∷ ys) = (v.cross i 0 xs (y ∷ ys) at refl).0 in
    let (q', h, ran, is', same, alike) = join-Alike rt.heap q tasks xs y ys is more apart in
    rw (push_batch-run i tasks rt q q' h at_q ran) (
      record {
        queues =
            set-Holds h i q' (xs ++ y ∷ ys) q.tail v.queues (lt_of_get_elem? c i xs at) is' same
              (λ j zs ne at_j.
                let apart_j = v.queues.apart i j xs zs (λ e. ne (sym e)) at at_j in
                let cross_j = v.cross j 0 zs (y ∷ ys) at_j refl in
                (
                  tail-Absent rt.heap q (others rt c v.queues i xs at j zs at_j).0 xs zs is
                      (others rt c v.queues i xs at j zs at_j).1 apart_j,
                  Disjoint-append xs (y ∷ ys) zs apart_j cross_j.1,
                  append-Disjoint zs xs (y ∷ ys) (v.queues.apart j i zs xs ne at_j at) cross_j.0,
                ));
        locals = Holds-frame h q.tail (Holds-tail v.locals) same (λ j zs at_j.
            let (m, is_m) = Holds-IsList v.locals (suc j) zs at_j in
            tail-Absent rt.heap q m xs zs is is_m (v.cross i (suc j) xs zs at at_j).0);
        cross = λ j k us zs at_j at_k. elim (ℕ_discrete j i) [
          | yes e ↦
              let e_u : xs ++ y ∷ ys ≡ us =
                cc (get_elem?-set_lt c i (xs ++ y ∷ ys) (lt_of_get_elem? c i xs at)) in
              let left = v.cross i (suc k) xs zs at at_k in
              let right = v.locals.apart 0 (suc k) (y ∷ ys) zs (λ e'. ground arith) refl at_k in
              let back = v.locals.apart (suc k) 0 zs (y ∷ ys) (λ e'. ground arith) at_k refl in
              rw (← e_u) (
                Disjoint-append xs (y ∷ ys) zs left.0 right,
                append-Disjoint zs xs (y ∷ ys) left.1 back,
              )
          | no ne ↦
              v.cross j (suc k) us zs (sym (get_elem?-set_ne c i j (xs ++ y ∷ ys) ne) ∙ at_j) at_k
        ];
      },
      (refl, refl),
      alike,
    )
