-- ===== src/Shared/View.antt =====
-- What the queues hold: for each worker, the sequence of its tasks.
use yaay_rs.Base.{
  ℕ, zero, suc, ◌<◌, ◌≡◌, ◌≢◌, List, [], ◌∷◌, some, get_elem?, set, length, true, arith,
  get_elem?-set_lt, get_elem?-set_ne, length-set, sym, ◌∙◌, ℕ_discrete,
}
use yaay_rs.Task.Heap.{Ptr, Heap}
use yaay_rs.TaskList.Defs.{TaskList}
use yaay_rs.TaskList.Chain.{Absent, Disjoint, member, IsList, IsList-frame}
use yaay_rs.Shared.State.{Runtime}

-- The tasks of each queue.
abbrev pub Contents : Type 0
Contents = List (List Ptr)

-- Every queue is the list of its contents, and no task is in two queues.
pub record Holds (h : Heap) (qs : List TaskList) (c : Contents) : Type 0 where
  pub sized : length qs ≡ length c
  pub lists :
      (i : ℕ) (l : TaskList) (xs : List Ptr)
      → get_elem? qs i ≡ some l
      → get_elem? c i ≡ some xs
      → IsList h l xs
  pub apart :
      (i j : ℕ) (xs ys : List Ptr)
      → i ≢ j
      → get_elem? c i ≡ some xs
      → get_elem? c j ≡ some ys
      → Disjoint xs ys

abbrev pub View : Runtime → Contents → Type 0
View rt c = Holds rt.heap rt.queues c

-- The task is in no queue.
abbrev pub Nowhere : Ptr → Contents → Type 0
Nowhere p [] = Unit
Nowhere p (xs ∷ c) = Absent p xs × Nowhere p c

pub Nowhere-get :
    (p : Ptr) (c : Contents) (i : ℕ) (xs : List Ptr)
    → Nowhere p c
    → get_elem? c i ≡ some xs
    → Absent p xs
Nowhere-get p [] i xs out at = absurd (ground arith)
Nowhere-get p (ys ∷ c) zero xs out at = ground arith
Nowhere-get p (ys ∷ c) (suc i) xs out at = Nowhere-get p c i xs out.1 at

pub Disjoint-member :
    (a : Ptr) (xs ys : List Ptr) → Disjoint xs ys → member a xs ≡ true → Absent a ys
Disjoint-member a [] ys apart m = ground arith
Disjoint-member a (x ∷ xs) ys apart m = ground (arith, Disjoint-member a xs ys)

-- The queue `i` is replaced by the list `l` of `xs`, in a heap in which only the task at `p` has
-- changed; the other queues hold neither `p` nor a task of `xs`.
pub set-Holds :
    {h : Heap} {qs : List TaskList} {c : Contents} (g : Heap) (i : ℕ) (l : TaskList) (xs : List Ptr)
    (p : Ptr)
    → Holds h qs c
    → i < length c
    → IsList g l xs
    → ((a : Ptr) → a ≢ p → g a ≡ h a)
    → ((j : ℕ) (ys : List Ptr)
        → j ≢ i
        → get_elem? c j ≡ some ys
        → Absent p ys × Disjoint xs ys × Disjoint ys xs)
    → Holds g (set qs i l) (set c i xs)
set-Holds {h} {qs} {c} g i l xs p v lt is same out = record {
  sized = length-set qs i l ∙ (v.sized ∙ sym (length-set c i xs));
  lists = λ j m ys at_q at_c. elim (ℕ_discrete j i) [
    | yes e ↦
        let e_l : l ≡ m = cc (get_elem?-set_lt qs i l (omega (arith, v.sized))) in
        let e_x : xs ≡ ys = cc (get_elem?-set_lt c i xs lt) in rw (← e_l, ← e_x) is
    | no ne ↦
        let q_j : get_elem? qs j ≡ some m = sym (get_elem?-set_ne qs i j l ne) ∙ at_q in
        let c_j : get_elem? c j ≡ some ys = sym (get_elem?-set_ne c i j xs ne) ∙ at_c in
        IsList-frame h g m p ys same (out j ys ne c_j).0 (v.lists j m ys q_j c_j)
  ];
  apart = λ j k ys zs ne at_j at_k. elim (ℕ_discrete j i) [
    | yes e ↦
        let e_x : xs ≡ ys = cc (get_elem?-set_lt c i xs lt) in
        let ne_k : k ≢ i = λ e_k. ne (e ∙ sym e_k) in
        rw (← e_x) (out k zs ne_k (sym (get_elem?-set_ne c i k xs ne_k) ∙ at_k)).1
    | no ne_j ↦
        let c_j : get_elem? c j ≡ some ys = sym (get_elem?-set_ne c i j xs ne_j) ∙ at_j in
        elim (ℕ_discrete k i) [
          | yes e ↦
              let e_x : xs ≡ zs = cc (get_elem?-set_lt c i xs lt) in
              rw (← e_x) (out j ys ne_j c_j).2
          | no ne_k ↦ v.apart j k ys zs ne c_j (sym (get_elem?-set_ne c i k xs ne_k) ∙ at_k)
        ]
  ];
}

-- Only a task outside of the lists has changed.
pub Holds-frame :
    {h : Heap} {qs : List TaskList} {c : Contents} (g : Heap) (p : Ptr)
    → Holds h qs c
    → ((a : Ptr) → a ≢ p → g a ≡ h a)
    → ((j : ℕ) (ys : List Ptr) → get_elem? c j ≡ some ys → Absent p ys)
    → Holds g qs c
Holds-frame {h} g p v same out = record {
  sized = v.sized;
  lists =
      λ i l xs at_q at_c. IsList-frame h g l p xs same (out i xs at_c) (v.lists i l xs at_q at_c);
  apart = v.apart;
}
