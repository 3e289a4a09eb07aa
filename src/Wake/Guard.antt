-- ===== src/Wake/Guard.antt =====
-- A wake between `BatchGuard::new` and the drop of the guard.
use yaay_rs.Base.{
  ℕ, zero, suc, ◌<◌, ◌≡◌, refl, false, List, [], ◌∷◌, ◌++◌, some, get_elem?, set, length, arith,
  sym, ◌∙◌, ap, lt_of_get_elem?, length-set,
}
use yaay_rs.Task.Heap.{Ptr, Heap}
use yaay_rs.Task.Protocol.{is_settled}
use yaay_rs.TaskList.Defs.{TaskList}
use yaay_rs.TaskList.Defs
use yaay_rs.TaskList.Chain.{Live, IsList, Disjoint}
use yaay_rs.Shared.State.{Runtime, M, ◌>>=◌}
use yaay_rs.Shared.View.{Contents, View, Nowhere}
use yaay_rs.Shared.Locked.{Ends, Ends-get}
use yaay_rs.Batch.{push_batch}
use yaay_rs.Batch.Split.{Split}
use yaay_rs.Batch.Laws.{zip, all_empty, push_batch-View}
use yaay_rs.Wake.{Local, nothing, batch, wake, new_lists, guard_new, guard_drop}
use yaay_rs.Wake.Laws.{Scheduled, wake-Scheduled}

-- No tasks for `n` workers.
abbrev pub nils : ℕ → Contents
nils zero = []
nils (suc n) = [] ∷ nils n

get_elem?-nils : (n i : ℕ) (xs : List Ptr) → get_elem? (nils n) i ≡ some xs → xs ≡ []
get_elem?-nils zero i xs at = absurd (ground arith)
get_elem?-nils (suc n) zero xs at = ground arith
get_elem?-nils (suc n) (suc i) xs at = get_elem?-nils n i xs at

nils-get : (n i : ℕ) → i < n → get_elem? (nils n) i ≡ some []
nils-get zero i lt = absurd (omega arith)
nils-get (suc n) zero lt = refl
nils-get (suc n) (suc i) lt = nils-get n i (omega arith)

pub length-nils : (n : ℕ) → length (nils n) ≡ n
length-nils zero = refl
length-nils (suc n) = ap suc (length-nils n)

length-new_lists : (n : ℕ) → length (new_lists n) ≡ n
unfolding new_lists
length-new_lists zero = refl
length-new_lists (suc n) = ap suc (length-new_lists n)

get_elem?-new_lists : (n i : ℕ) (l : TaskList) → get_elem? (new_lists n) i ≡ some l → l ≡ Defs.new
unfolding new_lists
get_elem?-new_lists zero i l at = absurd (ground arith)
get_elem?-new_lists (suc n) zero l at = ground arith
get_elem?-new_lists (suc n) (suc i) l at = get_elem?-new_lists n i l at

pub Nowhere-nils : (p : Ptr) (n : ℕ) → Nowhere p (nils n)
Nowhere-nils p zero = tt
Nowhere-nils p (suc n) = (refl, Nowhere-nils p n)

Disjoint-nil : (xs : List Ptr) → Disjoint xs []
Disjoint-nil [] = tt
Disjoint-nil (x ∷ xs) = (refl, Disjoint-nil xs)

new-IsList : (h : Heap) → IsList h Defs.new []
new-IsList h = (refl, refl)

pub new_lists-Split :
    (rt : Runtime) (c : Contents) (n : ℕ)
    → View rt c
    → Split rt.heap rt.queues c (new_lists n) (nils n)
new_lists-Split rt c n v = record {
  queues = v;
  locals = record {
    sized = length-new_lists n ∙ sym (length-nils n);
    lists = λ i l xs at_q at_c.
        rw (get_elem?-new_lists n i l at_q, get_elem?-nils n i xs at_c) (new-IsList rt.heap);
    apart = λ i j xs ys ne at_i at_j. rw (get_elem?-nils n i xs at_i) tt;
  };
  cross = λ i j xs ys at_i at_j. rw (get_elem?-nils n j ys at_j) (Disjoint-nil xs, tt);
}

append-nil : (xs : List Ptr) → xs ++ [] ≡ xs
append-nil [] = refl
append-nil (x ∷ xs) = ap (λ ys. x ∷ ys) (append-nil xs)

zip-nils : (c : Contents) (n : ℕ) → zip c (nils n) ≡ c
zip-nils [] n = refl
zip-nils (xs ∷ c) zero = refl
zip-nils (xs ∷ c) (suc n) = ground (arith, append-nil xs, zip-nils c n)

-- One list that is not empty is added to one queue.
zip-set :
    (c : Contents) (n i : ℕ) (xs ys : List Ptr)
    → get_elem? c i ≡ some xs
    → i < n
    → zip c (set (nils n) i ys) ≡ set c i (xs ++ ys)
zip-set [] n i xs ys at lt = absurd (ground arith)
zip-set (zs ∷ c) zero i xs ys at lt = absurd (omega arith)
zip-set (zs ∷ c) (suc n) zero xs ys at lt = ground (arith, zip-nils c n)
zip-set (zs ∷ c) (suc n) (suc i) xs ys at lt = ground (arith, append-nil zs, zip-set c n i xs ys at)

all_empty-set : (n i : ℕ) (y : Ptr) → i < n → all_empty (set (nils n) i (y ∷ [])) ≡ false
all_empty-set zero i y lt = absurd (omega arith)
all_empty-set (suc n) zero y lt = refl
all_empty-set (suc n) (suc i) y lt = all_empty-set n i y (omega arith)

-- `BatchGuard::new`, one wake, and the drop of the guard
unfoldable pub guarded_wake : Local → Ptr → M Local
guarded_wake local task = do batched ← guard_new local; woken ← wake batched task; guard_drop woken

guarded_wake-run :
    (rt rt1 rt2 : Runtime) (task : Ptr) (lists left : List TaskList)
    → wake (batch (new_lists (length rt.queues))) task rt ≡ some (batch lists, rt1)
    → push_batch lists rt1 ≡ some (left, rt2)
    → guarded_wake nothing task rt ≡ some (nothing, rt2)
unfolding guarded_wake guard_new guard_drop
guarded_wake-run rt rt1 rt2 task lists left woken pushed = rw (woken, pushed)

-- Within a batch of its own a wake of a parked task does to the queues what it does without one: the
-- task is appended to the queue of its worker, and `next_epoch` is called once.
pub guarded_wake-Scheduled :
    (rt : Runtime) (c : Contents) (xs : List Ptr) (task : Ptr) (v : Live rt.heap task)
    → is_settled v.here.status ≡ false
    → View rt c
    → Nowhere task c
    → get_elem? c v.here.worker_id ≡ some xs
    → Ends (Scheduled nothing rt c [] v.here.worker_id xs task) (guarded_wake nothing task rt)
guarded_wake-Scheduled rt c xs task v e view out at =
    let n : ℕ = length rt.queues in
    let i : ℕ = v.here.worker_id in
    let lt : i < n = omega (arith, lt_of_get_elem? c i xs at, view.sized) in
    let (local1, rt1, ran1, woken) = Ends-get (wake (batch (new_lists n)) task rt) (
      wake-Scheduled (batch (new_lists n)) rt c (nils n) [] task v e (new_lists-Split rt c n view)
        out (Nowhere-nils task n) (nils-get n i lt)) in
    let (lists, is_batch, split, quiet) = woken.0 in
    let sized : length c ≡ length lists =
      omega
        (arith, view.sized, split.locals.sized, length-set (nils n) i (task ∷ []), length-nils n) in
    let (left, rt2, ran2, post) =
      Ends-get (push_batch lists rt1) (push_batch-View rt1 c lists _ sized split) in
    let some_task : all_empty (set (nils n) i (task ∷ [])) ≡ false = all_empty-set n i task lt in
    rw (guarded_wake-run rt rt1 rt2 task lists left (ran1 ∙ ap (λ l. some (l, rt1)) is_batch) ran2)
      (
        refl,
        rw (← zip-set c n i xs (task ∷ []) at lt) post.1,
        ground (arith, post.2, quiet.0),
        ground (arith, post.3, quiet.0, quiet.1),
      )
