-- ===== src/TaskList/Chain.antt =====
-- The sequence of addresses that a `TaskList` stands for.
use yaay_rs.Base.{
  none, ◌∙◌, ◌≡◌, ◌≢◌, refl, Bool, true, false, ◌||◌, List, [], ◌∷◌, ◌++◌, ◌==◌, some, Option,
  arith,
}
use yaay_rs.Task.Heap.{set_next, Ptr, null, Heap, Task, write}
use yaay_rs.TaskList.Defs.{TaskList}

abbrev pub member : Ptr → List Ptr → Bool
member a [] = false
member a (x ∷ xs) = (a == x) || member a xs

abbrev pub Absent : Ptr → List Ptr → Type 0
Absent a xs = member a xs ≡ false

abbrev pub Disjoint : List Ptr → List Ptr → Type 0
Disjoint [] ys = Unit
Disjoint (x ∷ xs) ys = Absent x ys × Disjoint xs ys

-- A task lives at `p`.
pub record Live (h : Heap) (p : Ptr) : Type 0 where
  pub ne_null : p ≢ null
  pub here : Task
  pub holds : h p ≡ some here

-- A task lives at `p` and its `next` is `q`.
pub record Links (h : Heap) (p q : Ptr) : Type 0 where
  pub live : Live h p
  pub next : live.here.next ≡ q

-- From `p` the `next` pointers lead through distinct tasks, in the order of `p ∷ xs`. Nothing is said
-- of the `next` of the last one, which the list never reads.
abbrev pub Chain : Heap → Ptr → List Ptr → Type 0
Chain h p [] = Live h p
Chain h p (q ∷ xs) = Links h p q × Absent p (q ∷ xs) × Chain h q xs

abbrev pub last : Ptr → List Ptr → Ptr
last p [] = p
last p (q ∷ xs) = last q xs

abbrev pub IsList : Heap → TaskList → List Ptr → Type 0
IsList h l [] = (l.head ≡ null) × (l.tail ≡ null)
IsList h l (p ∷ xs) = (l.head ≡ p) × (l.tail ≡ last p xs) × Chain h p xs

-- `g` is `h` but for the `next` pointer of the task at `p`.
abbrev pub Relinked : Ptr → Heap → Heap → Type 0
Relinked p h g =
    ((a : Ptr) → a ≢ p → g a ≡ h a)
    × ((t : Task) → h p ≡ some t → (q : Ptr) × (g p ≡ some (record t { next = q })))

-- The command ends, without a fault, in a result and a heap of which `P` holds.
abbrev pub Returns : {A : Type 0} → (A → Heap → Type 0) → Option (A × Heap) → Type 0
Returns P none = ⊥
Returns P (some (a, h)) = P a h

pub member-append :
    (a : Ptr) (xs ys : List Ptr) → member a (xs ++ ys) ≡ (member a xs || member a ys)
member-append a [] ys = refl
member-append a (x ∷ xs) ys = ground (arith, member-append a xs ys)

pub member-last : (p : Ptr) (xs : List Ptr) → member (last p xs) (p ∷ xs) ≡ true
member-last p [] = ground arith
member-last p (q ∷ xs) = ground (arith, member-last q xs)

pub last-append : (p y : Ptr) (xs ys : List Ptr) → last p (xs ++ y ∷ ys) ≡ last y ys
last-append p y [] ys = refl
last-append p y (q ∷ xs) ys = last-append q y xs ys

pub last-Live : {h : Heap} (p : Ptr) (xs : List Ptr) → Chain h p xs → Live h (last p xs)
last-Live p [] c = c
last-Live p (q ∷ xs) c = last-Live q xs c.2

pub Chain-head : {h : Heap} (p : Ptr) (xs : List Ptr) → Chain h p xs → Live h p
Chain-head p [] c = c
Chain-head p (q ∷ xs) c = c.0.live

-- A chain survives any change at a task that is not on it.
module _ (h g : Heap) (a : Ptr) (same : (p : Ptr) → p ≢ a → g p ≡ h p) where
  Live-frame : {p : Ptr} → p ≢ a → Live h p → Live g p
  Live-frame {p} ne v = record { ne_null = v.ne_null; here = v.here; holds = same p ne ∙ v.holds }

  Links-frame : {p q : Ptr} → p ≢ a → Links h p q → Links g p q
  unfolding Live-frame
  Links-frame ne v = record { live = Live-frame ne v.live; next = v.next }

  pub Chain-frame : (p : Ptr) (xs : List Ptr) → Absent a (p ∷ xs) → Chain h p xs → Chain g p xs
  Chain-frame p [] out v = Live-frame (λ e. ground arith) v
  Chain-frame p (q ∷ xs) out v =
      (Links-frame (λ e. ground arith) v.0, v.1, Chain-frame q xs (ground arith) v.2)

-- So does a list.
pub IsList-frame :
    (h g : Heap) (l : TaskList) (x : Ptr) (xs : List Ptr)
    → ((a : Ptr) → a ≢ x → g a ≡ h a)
    → Absent x xs
    → IsList h l xs
    → IsList g l xs
IsList-frame h g l x [] same out is = is
IsList-frame h g l x (q ∷ xs) same out is = (is.0, is.1, Chain-frame h g x same q xs out is.2)

pub write-other : (h : Heap) (a : Ptr) (c : Option Task) (p : Ptr) → p ≢ a → write h a c p ≡ h p
unfolding write
write-other h a c p ne = ground arith

abbrev pub relink : Heap → Ptr → Task → Ptr → Heap
relink h p t q = write h p (some (record t { next = q }))

pub relink-Links : {h : Heap} {p : Ptr} (q : Ptr) (v : Live h p) → Links (relink h p v.here q) p q
unfolding write
relink-Links q v = record {
  live = record { ne_null = v.ne_null; here = record (v.here) { next = q }; holds = ground arith };
  next = refl;
}

pub relink-Relinked :
    {h : Heap} {p : Ptr} (q : Ptr) (v : Live h p) → Relinked p h (relink h p v.here q)
unfolding write
relink-Relinked q v = (λ a ne. ground arith, λ t e. (q, ground (arith, v.holds)))

-- Two chains are joined by one write, to the last task of the first.
pub join-Chain :
    {h : Heap} (p : Ptr) (xs : List Ptr) (y : Ptr) (ys : List Ptr)
    → Chain h p xs
    → Chain h y ys
    → Disjoint (p ∷ xs) (y ∷ ys)
    → (v : Live h (last p xs)) → Chain (relink h (last p xs) v.here y) p (xs ++ y ∷ ys)
join-Chain p [] y ys c d apart v =
    (relink-Links y v, apart.0, Chain-frame _ _ p (write-other _ p _) y ys apart.0 d)
join-Chain {h} p (q ∷ xs) y ys c d apart v =
    let ne : p ≢ last q xs = λ e. ground (arith, member-last q xs) in
    (
      Links-frame h _ (last q xs) (write-other h (last q xs) _) ne c.0,
      ground (arith, member-append p xs (y ∷ ys)),
      join-Chain q xs y ys c.2 d apart.1 v,
    )

pub set_next-Live :
    {h : Heap} {p : Ptr} (q : Ptr) (v : Live h p) → set_next p q h ≡ some (tt, relink h p v.here q)
unfolding set_next
set_next-Live q v = ground (arith, v.holds, v.ne_null)

pub Returns-get :
    {A : Type 0} {P : A → Heap → Type 0} (r : Option (A × Heap))
    → Returns P r
    → (a : A) × (h : Heap) × (r ≡ some (a, h)) × P a h
Returns-get none ran = elim ran [ ]
Returns-get (some (a, h)) ran = (a, h, refl, ran)

null-Chain : (h : Heap) (p : Ptr) (xs : List Ptr) → Chain h p xs → Absent null (p ∷ xs)
null-Chain h p [] c = ground (arith, c.ne_null)
null-Chain h p (q ∷ xs) c = ground (arith, c.0.live.ne_null, null-Chain h q xs c.2)

pub null-IsList : (h : Heap) (l : TaskList) (xs : List Ptr) → IsList h l xs → Absent null xs
null-IsList h l [] is = refl
null-IsList h l (p ∷ xs) is = null-Chain h p xs is.2
