-- ===== src/Task/Heap.antt =====
-- Tasks at addresses, and commands that read and write them. The vtable and the future behind a
-- task are not part of the record: what they do is an argument of the definitions that call them.
use yaay_rs.Base.{ℕ, Option, none, some, ◌==◌, if◌then◌else◌}
use yaay_rs.Task.Status.{Status, muted_bit, notified_bit, or_bits}

abbrev pub Ptr : Type 0
Ptr = ℕ

abbrev pub null : Ptr
null = 0

-- `struct Task`, less the vtable
pub record Task : Type 0 where
  pub status : Status
  pub rc : ℕ
  pub next : Ptr
  pub worker_id : ℕ

-- `none` where no task lives, as before its allocation and after its deallocation
abbrev pub Heap : Type 0
Heap = Ptr → Option Task

unfoldable pub write : Heap → Ptr → Option Task → Heap
write h p c a = if a == p then c else h a

-- A command on the heap. `none` is undefined behaviour: a read through a null or dangling pointer.
abbrev pub Cmd : Type 0 → Type 0
Cmd A = Heap → Option (A × Heap)

abbrev pub pure : {A : Type 0} → A → Cmd A
pure a h = some (a, h)

module _ {A B : Type 0} where
  abbrev pub and_then : Option (A × Heap) → (A → Cmd B) → Option (B × Heap)
  and_then none k = none
  and_then (some (a, h)) k = k a h

  infixl 5 ◌>>=◌
  abbrev pub ◌>>=◌ : Cmd A → (A → Cmd B) → Cmd B
  ◌>>=◌ m k h = and_then (m h) k

module _ {B : Type 0} where
  infixl 5 ◌>>◌
  abbrev pub ◌>>◌ : Cmd (Unit {0}) → Cmd B → Cmd B
  ◌>>◌ m k h = and_then (m h) (λ _. k)

-- `task.as_ref()`
unfoldable pub load : Ptr → Cmd Task
load p h = if p == null then none else elim (h p) [ none ↦ none | some t ↦ some (t, h) ]

-- a write of the whole record through `as_mut()`
unfoldable pub store : Ptr → Task → Cmd (Unit {0})
unfolding load write
store p t = load p >>= λ _ h. some (tt, write h p (some t))

-- `Task::new`: the record that is written to the address which the allocator returns
abbrev pub new_task : Task
new_task = record { status = or_bits muted_bit notified_bit; rc = 1; next = null; worker_id = 0 }

-- `Task::new`, given the address; `do_new(..).unwrap()` panics on null
unfoldable pub new : Ptr → Cmd Ptr
unfolding write
new fresh h = if fresh == null then none else some (fresh, write h fresh (some new_task))

unfoldable pub get_next : Ptr → Cmd Ptr
unfolding load
get_next p = do t ← load p; pure t.next

unfoldable pub set_next : Ptr → Ptr → Cmd (Unit {0})
unfolding load store
set_next p q = do t ← load p; store p (record t { next = q })

unfoldable pub get_worker_id : Ptr → Cmd ℕ
unfolding load
get_worker_id p = do t ← load p; pure t.worker_id

unfoldable pub set_worker_id : Ptr → ℕ → Cmd (Unit {0})
unfolding load store
set_worker_id p i = do t ← load p; store p (record t { worker_id = i })
