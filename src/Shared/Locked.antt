-- ===== src/Shared/Locked.antt =====
-- What an operation under the lock of one queue does to the contents of all.
use yaay_rs.Base.{
  ℕ, ◌≡◌, ◌≢◌, refl, List, [], ◌∷◌, ◌++◌, Option, none, some, get_elem?, set, arith,
  get_elem?-of_lt, lt_of_get_elem?, sym,
}
use yaay_rs.Task.Heap.{Ptr, null, Heap}
use yaay_rs.TaskList.Defs.{TaskList, push_back, push_front, pop_front}
use yaay_rs.TaskList.Chain.{
  Absent, Disjoint, Live, IsList, last, member-last, Returns-get, null-IsList,
}
use yaay_rs.TaskList.Alike.{Alike, push_back-Alike}
use yaay_rs.TaskList.Push.{push_front-cons}
use yaay_rs.TaskList.Pop.{first, rest, pop_front-cons}
use yaay_rs.Shared.State.{Runtime, lock_push_back, lock_push_front, lock_pop_front}
use yaay_rs.Shared.View.{Contents, View, Nowhere, Nowhere-get, Disjoint-member, set-Holds}

-- The call ends, without a panic or a fault, in a result and a state of which `P` holds.
abbrev pub Ends : {A : Type 0} → (A → Runtime → Type 0) → Option (A × Runtime) → Type 0
Ends P none = ⊥
Ends P (some (a, rt)) = P a rt

pub Ends-get :
    {A : Type 0} {P : A → Runtime → Type 0} (r : Option (A × Runtime))
    → Ends P r
    → (a : A) × (rt : Runtime) × (r ≡ some (a, rt)) × P a rt
Ends-get none ran = elim ran [ ]
Ends-get (some (a, rt)) ran = (a, rt, refl, ran)

-- The status word and the count of `unpark_all` are as they were.
abbrev pub Quiet : Runtime → Runtime → Type 0
Quiet rt rt' = (rt'.status ≡ rt.status) × (rt'.unparks ≡ rt.unparks)

pub Disjoint-snoc :
    (xs ys : List Ptr) (t : Ptr) → Disjoint xs ys → Absent t ys → Disjoint (xs ++ t ∷ []) ys
Disjoint-snoc [] ys t apart out = (out, tt)
Disjoint-snoc (x ∷ xs) ys t apart out = (apart.0, Disjoint-snoc xs ys t apart.1 out)

pub Absent-snoc :
    (a : Ptr) (xs : List Ptr) (t : Ptr) → Absent a xs → a ≢ t → Absent a (xs ++ t ∷ [])
Absent-snoc a [] t out ne = ground arith
Absent-snoc a (x ∷ xs) t out ne = ground (arith, Absent-snoc a xs t)

pub snoc-Disjoint :
    (ys xs : List Ptr) (t : Ptr) → Disjoint ys xs → Absent t ys → Disjoint ys (xs ++ t ∷ [])
snoc-Disjoint [] xs t apart out = tt
snoc-Disjoint (y ∷ ys) xs t apart out =
    (Absent-snoc y xs t apart.0 (λ e. ground arith), snoc-Disjoint ys xs t apart.1 (ground arith))

cons-Disjoint : (ys xs : List Ptr) (t : Ptr) → Disjoint ys xs → Absent t ys → Disjoint ys (t ∷ xs)
cons-Disjoint [] xs t apart out = tt
cons-Disjoint (y ∷ ys) xs t apart out = (ground arith, cons-Disjoint ys xs t apart.1 (ground arith))

rest-Disjoint : (ys xs : List Ptr) → Disjoint ys xs → Disjoint ys (rest xs)
rest-Disjoint [] xs apart = tt
rest-Disjoint (y ∷ ys) [] apart = (refl, rest-Disjoint ys [] apart.1)
rest-Disjoint (y ∷ ys) (x ∷ xs) apart = (ground arith, rest-Disjoint ys (x ∷ xs) apart.1)

Disjoint-rest : (xs ys : List Ptr) → Disjoint xs ys → Disjoint (rest xs) ys
Disjoint-rest [] ys apart = tt
Disjoint-rest (x ∷ xs) ys apart = apart.1

-- The tail of a list is in no list apart from it.
pub tail-Absent :
    (h : Heap) (l m : TaskList) (xs ys : List Ptr)
    → IsList h l xs
    → IsList h m ys
    → Disjoint xs ys
    → Absent l.tail ys
tail-Absent h l m [] ys is is_m apart = rw is.1 (null-IsList h m ys is_m)
tail-Absent h l m (p ∷ xs) ys is is_m apart =
    rw is.1 (Disjoint-member (last p xs) (p ∷ xs) ys apart (member-last p xs))

push_back-run :
    (i : ℕ) (task : Ptr) (rt : Runtime) (l l' : TaskList) (h : Heap)
    → get_elem? rt.queues i ≡ some l
    → push_back l task rt.heap ≡ some (l', h)
    → lock_push_back i task rt ≡ some (tt, record rt { heap = h; queues = set rt.queues i l' })
unfolding lock_push_back
push_back-run i task rt l l' h at ran = ground arith

push_front-run :
    (i : ℕ) (task : Ptr) (rt : Runtime) (l l' : TaskList) (h : Heap)
    → get_elem? rt.queues i ≡ some l
    → push_front l task rt.heap ≡ some (l', h)
    → lock_push_front i task rt ≡ some (tt, record rt { heap = h; queues = set rt.queues i l' })
unfolding lock_push_front
push_front-run i task rt l l' h at ran = ground arith

pop_front-run :
    (i : ℕ) (rt : Runtime) (l l' : TaskList) (front : Option Ptr) (h : Heap)
    → get_elem? rt.queues i ≡ some l
    → pop_front l rt.heap ≡ some ((front, l'), h)
    → lock_pop_front i rt ≡ some (front, record rt { heap = h; queues = set rt.queues i l' })
unfolding lock_pop_front
pop_front-run i rt l l' front h at ran = ground arith

module _ (rt : Runtime) (c : Contents) (v : View rt c) (i : ℕ) (xs : List Ptr)
    (at : get_elem? c i ≡ some xs) where
  pub locked : (l : TaskList) × (get_elem? rt.queues i ≡ some l) × IsList rt.heap l xs
  locked =
      let (l, at_q) =
        get_elem?-of_lt rt.queues i (omega (arith, v.sized, lt_of_get_elem? c i xs at)) in
      (l, at_q, v.lists i l xs at_q at)

  pub others :
      (j : ℕ) (ys : List Ptr) → get_elem? c j ≡ some ys → (m : TaskList) × IsList rt.heap m ys
  others j ys at_j =
      let (m, at_q) =
        get_elem?-of_lt rt.queues j (omega (arith, v.sized, lt_of_get_elem? c j ys at_j)) in
      (m, v.lists j m ys at_q at_j)

  -- A task that is in no queue is appended to queue `i`, and the other queues keep their contents;
  -- no task changes but in its `next` pointer.
  pub lock_push_back-View :
      (task : Ptr)
      → Live rt.heap task
      → Nowhere task c
      → Ends
          (λ _ rt'. View rt' (set c i (xs ++ task ∷ [])) × Quiet rt rt' × Alike rt.heap rt'.heap)
          (lock_push_back i task rt)
  lock_push_back-View task live out =
      let (l, at_q, is) = locked in
      let (l', h, ran, is', same, alike) =
        push_back-Alike rt.heap l xs task is live (Nowhere-get task c i xs out at) in
      rw (push_back-run i task rt l l' h at_q ran) (
        set-Holds h i l' (xs ++ task ∷ []) l.tail v (lt_of_get_elem? c i xs at) is' same
            (λ j ys ne at_j.
              let out_j = Nowhere-get task c j ys out at_j in
              let apart = v.apart i j xs ys (λ e. ne (sym e)) at at_j in
              (
                tail-Absent rt.heap l (others j ys at_j).0 xs ys is (others j ys at_j).1 apart,
                Disjoint-snoc xs ys task apart out_j,
                snoc-Disjoint ys xs task (v.apart j i ys xs ne at_j at) out_j,
              )),
        (refl, refl),
        alike,
      )

  -- A task that is in no queue is put in front of queue `i`, and the other queues keep their contents.
  pub lock_push_front-View :
      (task : Ptr)
      → Live rt.heap task
      → Nowhere task c
      → Ends (λ _ rt'. View rt' (set c i (task ∷ xs)) × Quiet rt rt') (lock_push_front i task rt)
  lock_push_front-View task live out =
      let (l, at_q, is) = locked in
      let (l', h, ran, post) =
        Returns-get (push_front l task rt.heap)
          (push_front-cons rt.heap l xs task is live (Nowhere-get task c i xs out at)) in
      rw (push_front-run i task rt l l' h at_q ran) (
        set-Holds h i l' (task ∷ xs) task v (lt_of_get_elem? c i xs at) post.0 post.1.0
            (λ j ys ne at_j.
              let out_j = Nowhere-get task c j ys out at_j in
              (
                out_j,
                (out_j, v.apart i j xs ys (λ e. ne (sym e)) at at_j),
                cons-Disjoint ys xs task (v.apart j i ys xs ne at_j at) out_j,
              )),
        (refl, refl),
      )

  -- The first task of queue `i` is taken, if there is one, and nothing else changes.
  pub lock_pop_front-View :
      Ends
        (λ front rt'.
          (front ≡ first xs) × View rt' (set c i (rest xs)) × (rt'.heap ≡ rt.heap) × Quiet rt rt')
        (lock_pop_front i rt)
  lock_pop_front-View =
      let (l, at_q, is) = locked in
      let (l', ran, is') = pop_front-cons rt.heap l xs is in
      rw (pop_front-run i rt l l' (first xs) rt.heap at_q ran) (
        refl,
        set-Holds rt.heap i l' (rest xs) null v (lt_of_get_elem? c i xs at) is' (λ a ne. refl)
            (λ j ys ne at_j. (
              null-IsList rt.heap (others j ys at_j).0 ys (others j ys at_j).1,
              Disjoint-rest xs ys (v.apart i j xs ys (λ e. ne (sym e)) at at_j),
              rest-Disjoint ys xs (v.apart j i ys xs ne at_j at),
            )),
        refl,
        (refl, refl),
      )
