-- ===== src/Shared/State.antt =====
-- The shared state, and calls on it. `none` is a panic or undefined behaviour.
use yaay_rs.Base.{ℕ, ◌+◌, Option, none, some, List, get_elem?, set, if◌then◌else◌}
use yaay_rs.Task.Heap.{Ptr, Heap, Cmd}
use yaay_rs.TaskList.Defs.{TaskList, push_back, push_front, pop_front, push_back_batch}
use yaay_rs.Epoch.Defs.{next_epoch}

-- `RuntimeSharedData`, with what its pointers lead to. A worker is named by its id.
pub record Runtime : Type 0 where
  pub heap : Heap
  pub queues : List TaskList  -- `worker_ptrs[i].task_list`
  pub status : ℕ  -- the word of `epoch`
  pub unparks : ℕ  -- how often `unpark_all` has been called

abbrev pub M : Type 0 → Type 0
M A = Runtime → Option (A × Runtime)

abbrev pub pure : {A : Type 0} → A → M A
pure a rt = some (a, rt)

module _ {A B : Type 0} where
  abbrev pub and_then : Option (A × Runtime) → (A → M B) → Option (B × Runtime)
  and_then none k = none
  and_then (some (a, rt)) k = k a rt

  infixl 5 ◌>>=◌
  abbrev pub ◌>>=◌ : M A → (A → M B) → M B
  ◌>>=◌ m k rt = and_then (m rt) k

module _ {B : Type 0} where
  infixl 5 ◌>>◌
  abbrev pub ◌>>◌ : M (Unit {0}) → M B → M B
  ◌>>◌ m k rt = and_then (m rt) (λ _. k)

-- A command on the heap.
abbrev pub on_heap : {A : Type 0} → Cmd A → M A
on_heap c rt = elim (c rt.heap) [ none ↦ none | some (a, h) ↦ some (a, record rt { heap = h }) ]

-- `worker_ptrs[i].task_list.lock()`, one operation, and the end of the lock
unfoldable pub with_queue : {A : Type 0} → ℕ → (TaskList → Cmd (A × TaskList)) → M A
with_queue i op rt = elim (get_elem? rt.queues i) [
  | none ↦ none
  | some l ↦ elim (op l rt.heap) [
    | none ↦ none
    | some ((a, l'), h) ↦ some (a, record rt { heap = h; queues = set rt.queues i l' })
  ]
]

-- An operation that returns the list only.
abbrev pub only_list : Option (TaskList × Heap) → Option ((Unit {0} × TaskList) × Heap)
only_list none = none
only_list (some (l, h)) = some ((tt, l), h)

unfoldable pub lock_push_back : ℕ → Ptr → M (Unit {0})
unfolding with_queue
lock_push_back i task = with_queue i (λ l h. only_list (push_back l task h))

unfoldable pub lock_push_front : ℕ → Ptr → M (Unit {0})
unfolding with_queue
lock_push_front i task = with_queue i (λ l h. only_list (push_front l task h))

unfoldable pub lock_push_batch : ℕ → TaskList → M (Unit {0})
unfolding with_queue
lock_push_batch i tasks = with_queue i (λ l h. only_list (push_back_batch l tasks h))

unfoldable pub lock_pop_front : ℕ → M (Option Ptr)
unfolding with_queue
lock_pop_front i = with_queue i pop_front

-- `shared.epoch.as_ref().next_epoch()`
unfoldable pub call_next_epoch : M (Unit {0})
call_next_epoch rt =
    let out = next_epoch rt.status in
    some (
      tt,
      record rt { status = out.word; unparks = if out.wakes then rt.unparks + 1 else rt.unparks },
    )
