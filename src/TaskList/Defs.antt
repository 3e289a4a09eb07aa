-- ===== src/TaskList/Defs.antt =====
-- The operations of `TaskList`. A list that is updated in place is returned anew; its mutex
-- (`SyncTaskList`) makes each operation one step of the concurrent models.
use yaay_rs.Base.{ℕ, zero, suc, ◌==◌, if◌then◌else◌, Bool, Option, none, some}
use yaay_rs.Task.Heap.{Ptr, null, Cmd, pure, ◌>>=◌, ◌>>◌, get_next, set_next}

pub record TaskList : Type 0 where
  pub head : Ptr
  pub tail : Ptr

abbrev pub task_list : Ptr → Ptr → TaskList
task_list p q = record { head = p; tail = q }

abbrev pub new : TaskList
new = task_list null null

unfoldable pub push_back_batch : TaskList → TaskList → Cmd TaskList
push_back_batch l tasks =
    if l.tail == null
    then pure (task_list tasks.head tasks.tail)
    else do set_next l.tail tasks.head; pure (record l { tail = tasks.tail })

unfoldable pub push_back : TaskList → Ptr → Cmd TaskList
unfolding push_back_batch
push_back l task = push_back_batch l (task_list task task)

unfoldable pub push_front_batch : TaskList → TaskList → Cmd TaskList
push_front_batch l tasks =
    if l.head == null
    then pure (task_list tasks.head tasks.tail)
    else do set_next tasks.tail l.head; pure (record l { head = tasks.head })

unfoldable pub push_front : TaskList → Ptr → Cmd TaskList
unfolding push_front_batch
push_front l task = push_front_batch l (task_list task task)

unfoldable pub pop_front : TaskList → Cmd (Option Ptr × TaskList)
pop_front l =
    if l.head == null
    then pure (none, l)
    else (if l.head == l.tail
        then pure (some l.head, new)
        else do head_next ← get_next l.head; pure (some l.head, record l { head = head_next }))

unfoldable pub is_empty : TaskList → Bool
is_empty l = l.head == null

-- The popped list and the list that is left.
unfoldable pub pop_all : TaskList → TaskList × TaskList
pop_all l = (task_list l.head l.tail, new)

-- `for task in list { body(task) }`: `Iterator::next` is `pop_front`. With no fuel left the loop has
-- not ended, which is `none` as well.
unfoldable pub drain : ℕ → TaskList → (Ptr → Cmd (Unit {0})) → Cmd (Unit {0})
unfolding pop_front
drain zero l body = λ h. none
drain (suc k) l body = do
  (front, rest) ← pop_front l
  elim front [ none ↦ pure tt | some task ↦ body task >> drain k rest body ]
