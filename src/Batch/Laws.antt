-- ===== src/Batch/Laws.antt =====
-- What `push_batch` does to the contents of the queues.
use yaay_rs.Base.{
  ℕ, suc, ◌+◌, ◌≡◌, refl, Bool, true, false, ◌&&◌, not, List, [], ◌∷◌, ◌++◌, some, get_elem?, set,
  length, arith, ◌∙◌, ap, if◌then◌else◌,
}
use yaay_rs.Task.Heap.{Ptr, null}
use yaay_rs.Epoch.Defs.{next_epoch}
use yaay_rs.TaskList.Defs.{TaskList, is_empty, pop_all}
use yaay_rs.TaskList.Chain.{IsList}
use yaay_rs.TaskList.Alike.{Alike}
use yaay_rs.TaskList.Pop.{empty, is_empty_lem, pop_all_lem}
use yaay_rs.Shared.State.{Runtime, pure, and_then, lock_push_batch, call_next_epoch}
use yaay_rs.Shared.View.{Contents, View}
use yaay_rs.Shared.Locked.{Ends, Ends-get, Quiet}
use yaay_rs.Batch.{push_lists, push_batch}
use yaay_rs.Batch.Split.{Split, Split-tail, lock_push_batch-Split}

-- Each queue's tasks, then those of the local list.
abbrev pub zip : Contents → Contents → Contents
zip [] d = []
zip (xs ∷ c) [] = xs ∷ c
zip (xs ∷ c) (ys ∷ d) = (xs ++ ys) ∷ zip c d

abbrev pub all_empty : Contents → Bool
all_empty [] = true
all_empty (ys ∷ d) = empty ys && all_empty d

-- The list has no task.
abbrev IsNull : TaskList → Type 0
IsNull l = (l.head ≡ null) × (l.tail ≡ null)

abbrev pub AllEmpty : List TaskList → Type 0
AllEmpty [] = Unit
AllEmpty (l ∷ ls) = (is_empty l ≡ true) × AllEmpty ls

get_elem?-mid :
    (c : Contents) (xs : List Ptr) (r : Contents) → get_elem? (c ++ xs ∷ r) (length c) ≡ some xs
get_elem?-mid [] xs r = refl
get_elem?-mid (ys ∷ c) xs r = get_elem?-mid c xs r

set-mid :
    (c : Contents) (xs ys : List Ptr) (r : Contents)
    → set (c ++ xs ∷ r) (length c) ys ≡ (c ++ ys ∷ []) ++ r
set-mid [] xs ys r = refl
set-mid (zs ∷ c) xs ys r = ap (λ d. zs ∷ d) (set-mid c xs ys r)

mid_assoc : (c : Contents) (xs : List Ptr) (r : Contents) → (c ++ xs ∷ []) ++ r ≡ c ++ xs ∷ r
mid_assoc [] xs r = refl
mid_assoc (zs ∷ c) xs r = ap (λ d. zs ∷ d) (mid_assoc c xs r)

length-snoc : (c : Contents) (xs : List Ptr) → length (c ++ xs ∷ []) ≡ length c + 1
length-snoc [] xs = omega arith
length-snoc (zs ∷ c) xs = omega (arith, length-snoc c xs)

pub append-nil : (xs : List Ptr) → xs ++ [] ≡ xs
append-nil [] = refl
append-nil (x ∷ xs) = ap (λ ys. x ∷ ys) (append-nil xs)

-- Both pointers are null.
abbrev pub AllNull : List TaskList → Type 0
AllNull [] = Unit
AllNull (l ∷ ls) = IsNull l × AllNull ls

-- `n` local lists, null, in a heap in which only `next` pointers have changed.
pub record Clean (n : ℕ) (rt : Runtime) (ls : List TaskList) (rt' : Runtime) : Type 0 where
  pub sized : length ls ≡ n
  pub nulls : AllNull ls
  pub alike : Alike rt.heap rt'.heap

-- What the loop leaves: the flag, empty local lists, and queues that hold the contents `c`.
abbrev Pushed : Runtime → Contents → Bool → ℕ → Bool × List TaskList → Runtime → Type 0
Pushed rt c flag n (e, ls) rt' =
    (e ≡ flag) × AllEmpty ls × View rt' c × Quiet rt rt' × Clean n rt ls rt'

push_lists-skip :
    (i : ℕ) (l : TaskList) (ls : List TaskList) (rt : Runtime)
    → is_empty l ≡ true
    → push_lists i (l ∷ ls) rt
      ≡ and_then (push_lists (i + 1) ls rt) (λ out. pure (out.0, l ∷ out.1))
unfolding push_lists
push_lists-skip i l ls rt e = rw e

push_lists-move :
    (i : ℕ) (l : TaskList) (ls : List TaskList) (rt rt' : Runtime)
    → is_empty l ≡ false
    → lock_push_batch i (pop_all l).0 rt ≡ some (tt, rt')
    → push_lists i (l ∷ ls) rt
      ≡ and_then (push_lists (i + 1) ls rt') (λ out. pure (false, (pop_all l).1 ∷ out.1))
unfolding push_lists
push_lists-move i l ls rt rt' e ran = rw (e, ran)

push_lists-View :
    (rt : Runtime) (done c : Contents) (i : ℕ) (ls : List TaskList) (d : Contents)
    → i ≡ length done
    → length c ≡ length ls
    → Split rt.heap rt.queues (done ++ c) ls d
    → Ends (Pushed rt (done ++ zip c d) (all_empty d) (length ls)) (push_lists i ls rt)
unfolding push_lists
push_lists-View rt done [] i [] [] e_i e_c v =
    (refl, tt, v.queues, (refl, refl), record { sized = refl; nulls = tt; alike = λ a. refl })
push_lists-View rt done [] i [] (ys ∷ d) e_i e_c v = absurd (ground (arith, v.locals.sized))
push_lists-View rt done (xs ∷ c) i [] d e_i e_c v = absurd (ground arith)
push_lists-View rt done [] i (l ∷ ls) d e_i e_c v = absurd (ground arith)
push_lists-View rt done (xs ∷ c) i (l ∷ ls) [] e_i e_c v = absurd (ground (arith, v.locals.sized))
push_lists-View rt done (xs ∷ c) i (l ∷ ls) ([] ∷ d) e_i e_c v =
    let is : IsList rt.heap l [] = v.locals.lists 0 l [] refl refl in
    let done' = done ++ xs ∷ [] in
    let next : Split rt.heap rt.queues (done' ++ c) ls d =
      rw (mid_assoc done xs c) (Split-tail v) in
    let ((e, ls'), rt', ran, post) = Ends-get (push_lists (i + 1) ls rt) (
      push_lists-View rt done' c (i + 1) ls d (omega (arith, e_i, length-snoc done xs))
        (omega (arith, e_c)) next) in
    rw (push_lists-skip i l ls rt (is_empty_lem rt.heap l [] is), ran)
      (
        post.0,
        (is_empty_lem rt.heap l [] is, post.1),
        rw (append-nil xs, ← mid_assoc done xs (zip c d)) post.2,
        post.3,
        record { sized = ap suc post.4.sized; nulls = (is, post.4.nulls); alike = post.4.alike },
      )
push_lists-View rt done (xs ∷ c) i (l ∷ ls) ((y ∷ ys) ∷ d) e_i e_c v =
    let is : IsList rt.heap l (y ∷ ys) = v.locals.lists 0 l (y ∷ ys) refl refl in
    let popped = pop_all_lem rt.heap l (y ∷ ys) is in
    let zs = xs ++ y ∷ ys in
    let done' = done ++ zs ∷ [] in
    let at : get_elem? (done ++ xs ∷ c) i ≡ some xs = rw e_i (get_elem?-mid done xs c) in
    let (_, rt1, ran1, post1) =
      Ends-get (lock_push_batch i (pop_all l).0 rt)
        (lock_push_batch-Split rt (done ++ xs ∷ c) l (pop_all l).0 ls y ys d i xs v popped.0 at) in
    let next : Split rt1.heap rt1.queues (done' ++ c) ls d =
      rw (← set-mid done xs zs c, ← e_i) post1.0 in
    let ((e, ls'), rt', ran, post) = Ends-get (push_lists (i + 1) ls rt1) (
      push_lists-View rt1 done' c (i + 1) ls d (omega (arith, e_i, length-snoc done zs))
        (omega (arith, e_c)) next) in
    rw (push_lists-move i l ls rt rt1 (is_empty_lem rt.heap l (y ∷ ys) is) ran1, ran)
      (
        refl,
        (is_empty_lem rt'.heap (pop_all l).1 [] popped.1, post.1),
        rw (← mid_assoc done zs (zip c d)) post.2,
        (post.3.0 ∙ post1.1.0, post.3.1 ∙ post1.1.1),
        record {
          sized = ap suc post.4.sized;
          nulls = (popped.1, post.4.nulls);
          alike = λ a. post.4.alike a ∙ post1.2 a;
        },
      )

-- The local lists are left empty, the queues hold `c`, and `next_epoch` is called unless `all`.
abbrev pub Delivered : Runtime → Contents → Bool → List TaskList → Runtime → Type 0
Delivered rt c all ls rt' =
    AllEmpty ls
    × View rt' c
    × (rt'.status ≡ (if all then rt.status else (next_epoch rt.status).word))
    × (rt'.unparks
        ≡ (if not all && (next_epoch rt.status).wakes then rt.unparks + 1 else rt.unparks))

push_batch-end :
    (flag : Bool) (rt rt' : Runtime) (ls ls' : List TaskList) (c : Contents)
    → push_lists 0 ls rt ≡ some ((flag, ls'), rt')
    → AllEmpty ls'
    → View rt' c
    → Quiet rt rt'
    → Ends (Delivered rt c flag) (push_batch ls rt)
unfolding push_batch call_next_epoch
push_batch-end true rt rt' ls ls' c ran empties v quiet = rw ran (empties, v, quiet.0, quiet.1)
push_batch-end false rt rt' ls ls' c ran empties v quiet =
    rw ran (empties, v, ground (arith, quiet.0), ground (arith, quiet.0, quiet.1))

-- `push_batch` appends each local list to the queue of its worker, in order, leaves every local list
-- empty, and calls `next_epoch`, once, exactly if some local list was not empty.
pub push_batch-View :
    (rt : Runtime) (c : Contents) (ls : List TaskList) (d : Contents)
    → length c ≡ length ls
    → Split rt.heap rt.queues c ls d
    → Ends (Delivered rt (zip c d) (all_empty d)) (push_batch ls rt)
push_batch-View rt c ls d sized v =
    let ((e, ls'), rt', ran, post) =
      Ends-get (push_lists 0 ls rt) (push_lists-View rt [] c 0 ls d refl sized v) in
    rw (← post.0) (push_batch-end e rt rt' ls ls' (zip c d) ran post.1 post.2 post.3)

push_batch-end-Clean :
    (flag : Bool) (n : ℕ) (rt rt' : Runtime) (ls ls' : List TaskList)
    → push_lists 0 ls rt ≡ some ((flag, ls'), rt')
    → Clean n rt ls' rt'
    → Ends (Clean n rt) (push_batch ls rt)
unfolding push_batch call_next_epoch
push_batch-end-Clean true n rt rt' ls ls' ran clean = rw ran clean
push_batch-end-Clean false n rt rt' ls ls' ran clean =
    rw ran (record { sized = clean.sized; nulls = clean.nulls; alike = clean.alike })

-- The local lists are as many as before, and null, and no task changes but in its `next` pointer.
pub push_batch-Clean :
    (rt : Runtime) (c : Contents) (ls : List TaskList) (d : Contents)
    → length c ≡ length ls
    → Split rt.heap rt.queues c ls d
    → Ends (Clean (length ls) rt) (push_batch ls rt)
push_batch-Clean rt c ls d sized v =
    let ((e, ls'), rt', ran, post) =
      Ends-get (push_lists 0 ls rt) (push_lists-View rt [] c 0 ls d refl sized v) in
    push_batch-end-Clean e (length ls) rt rt' ls ls' ran post.4
