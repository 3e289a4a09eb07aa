-- ===== src/Worker/Steals.antt =====
-- What `try_steal` does to the contents of the queues.
use yaay_rs.Base.{
  ℕ, suc, ◌-◌, ◌%◌, ◌<◌, ◌≤◌, ◌≡◌, ◌≢◌, refl, List, [], ◌∷◌, Option, none, some, if◌then◌else◌,
  get_elem?, set, arith, ltb, true, false, ◌∙◌, sym, ℕ_discrete, get_elem?-set_lt, get_elem?-set_ne,
  lt_of_get_elem?, ap,
}
use yaay_rs.Rng.Defs.{next_seed}
use yaay_rs.Task.Heap.{Ptr, null, Task, Heap, set_worker_id, write, load, store}
use yaay_rs.TaskList.Defs.{TaskList, is_empty}
use yaay_rs.TaskList.Chain.{Live, IsList, Absent, Chain, Chain-head, write-other}
use yaay_rs.TaskList.Pop.{is_empty_lem}
use yaay_rs.Shared.State.{Runtime, lock_pop_front}
use yaay_rs.Shared.View.{Contents, Holds, View, Holds-frame}
use yaay_rs.Shared.Locked.{Ends, Ends-get, Quiet, lock_pop_front-View, locked}
use yaay_rs.Worker.Peers.{other_workers-get}
use yaay_rs.Worker.Calls.{Private, peek_empty, after_steal, try_steal}
use yaay_rs.Worker.Spawns.{IsWorker, Reseeded}

-- The victim of the index `t`: any other worker.
abbrev pub victim : ℕ → ℕ → ℕ
victim w t = if ltb t w then t else suc t

-- The queues after a theft, and the thief's own data.
abbrev pub Stolen :
    Private → Runtime → Contents → ℕ → List Ptr → Option Ptr × Private → Runtime → Type 0
Stolen p rt c v [] (task, p') rt' = (task ≡ none) × Reseeded p p' × (rt' ≡ rt)
Stolen p rt c v (x ∷ xs) (task, p') rt' =
    (task ≡ some x)
    × (p' ≡ p)
    × View rt' (set c v xs)
    × ((t : Task) → rt.heap x ≡ some t → rt'.heap x ≡ some (record t { worker_id = p.worker_id }))
    × Quiet rt rt'

steal-none :
    (p : Private) (v : ℕ) (rt : Runtime) (l : TaskList)
    → p.n_workers - 1 ≢ 0
    → get_elem? p.others (p.seed % (p.n_workers - 1)) ≡ some v
    → get_elem? rt.queues v ≡ some l
    → is_empty l ≡ true
    → try_steal p rt ≡ some ((none, record p { seed = next_seed p.seed }), rt)
unfolding try_steal peek_empty after_steal
steal-none p v rt l ne at at_q e = ground arith

steal-some :
    (p : Private) (v : ℕ) (rt rt' : Runtime) (l : TaskList) (x : Ptr) (h : Heap)
    → p.n_workers - 1 ≢ 0
    → get_elem? p.others (p.seed % (p.n_workers - 1)) ≡ some v
    → get_elem? rt.queues v ≡ some l
    → is_empty l ≡ false
    → lock_pop_front v rt ≡ some (some x, rt')
    → set_worker_id x p.worker_id rt'.heap ≡ some (tt, h)
    → try_steal p rt ≡ some ((some x, p), record rt' { heap = h })
unfolding try_steal peek_empty after_steal
steal-some p v rt rt' l x h ne at at_q e ran marked = ground arith

set_worker_id-run :
    (x : Ptr) (i : ℕ) (h : Heap) (t : Task)
    → x ≢ null
    → h x ≡ some t
    → set_worker_id x i h ≡ some (tt, write h x (some (record t { worker_id = i })))
unfolding set_worker_id load store
set_worker_id-run x i h t ne at = ground arith

write-same : (h : Heap) (a : Ptr) (t : Option Task) → write h a t a ≡ t
unfolding write
write-same h a t = ground arith

head-Absent : (h : Heap) (p : Ptr) (xs : List Ptr) → Chain h p xs → Absent p xs
head-Absent h p [] is = refl
head-Absent h p (q ∷ xs) is = is.1

-- The task that was taken is in no queue.
taken-Absent :
    (h : Heap) (qs : List TaskList) (c : Contents) (v : ℕ) (l : TaskList) (x : Ptr) (xs : List Ptr)
    → Holds h qs c
    → get_elem? c v ≡ some (x ∷ xs)
    → IsList h l (x ∷ xs)
    → (j : ℕ) (ys : List Ptr) → get_elem? (set c v xs) j ≡ some ys
    → Absent x ys
taken-Absent h qs c v l x xs holds at is j ys at_j = elim (ℕ_discrete j v) [
  | yes e ↦
      let e_x : xs ≡ ys = cc (get_elem?-set_lt c v xs (lt_of_get_elem? c v (x ∷ xs) at)) in
      rw (← e_x) (head-Absent h x xs is.2)
  | no ne ↦
      let at_c : get_elem? c j ≡ some ys = sym (get_elem?-set_ne c v j xs ne) ∙ at_j in
      (holds.apart v j (x ∷ xs) ys (λ e. ne (sym e)) at at_c).0
]

steal-Stolen :
    (p : Private) (v : ℕ) (rt : Runtime) (c : Contents) (xs : List Ptr)
    → View rt c
    → p.n_workers - 1 ≢ 0
    → get_elem? p.others (p.seed % (p.n_workers - 1)) ≡ some v
    → get_elem? c v ≡ some xs
    → Ends (Stolen p rt c v xs) (try_steal p rt)
steal-Stolen p v rt c [] holds more at_v at =
    let (l, at_q, is) = locked rt c holds v [] at in
    rw (steal-none p v rt l more at_v at_q (is_empty_lem rt.heap l [] is)) (refl, refl, refl)
steal-Stolen p v rt c (x ∷ xs) holds more at_v at =
    let (l, at_q, is) = locked rt c holds v (x ∷ xs) at in
    let (front, rt', ran, post) =
      Ends-get (lock_pop_front v rt) (lock_pop_front-View rt c holds v (x ∷ xs) at) in
    let live : Live rt.heap x = Chain-head x xs is.2 in
    let marked : Task = record (live.here) { worker_id = p.worker_id } in
    let ran' : lock_pop_front v rt ≡ some (some x, rt') = cc in
    let at_x : rt'.heap x ≡ some live.here = ap (λ h. h x) post.2 ∙ live.holds in
    rw
      (steal-some p v rt rt' l x (write rt'.heap x (some marked)) more at_v at_q
        (is_empty_lem rt.heap l (x ∷ xs) is) ran'
        (set_worker_id-run x p.worker_id rt'.heap live.here live.ne_null at_x))
      (
        refl,
        refl,
        Holds-frame (write rt'.heap x (some marked)) x post.1
            (λ a ne. write-other rt'.heap x (some marked) a ne)
            (taken-Absent rt.heap rt.queues c v l x xs holds at is),
        λ t at_t.
            let same : live.here ≡ t = cc (live.holds) in
            write-same rt'.heap x (some marked)
            ∙ ap {A = Task} (λ u. some (record u { worker_id = p.worker_id })) same,
        post.3,
      )

-- `try_steal` looks at the queue of the worker, never the thief itself, that the seed selects. It
-- takes the first task, which then has the thief's id, and keeps the seed; or the queue is empty, and
-- only the seed changes.
pub try_steal-View :
    (n w : ℕ) (p : Private) (rt : Runtime) (c : Contents) (xs : List Ptr)
    → IsWorker n w p
    → 2 ≤ n
    → View rt c
    → get_elem? c (victim w (p.seed % (n - 1))) ≡ some xs
    → (victim w (p.seed % (n - 1)) ≢ w)
      × Ends (Stolen p rt c (victim w (p.seed % (n - 1))) xs) (try_steal p rt)
try_steal-View n w p rt c xs is two v at =
    let t : ℕ = p.seed % (n - 1) in
    let small : t < n - 1 = grind (arith, two) in
    let at_v : get_elem? p.others (p.seed % (p.n_workers - 1)) ≡ some (victim w t) =
      rw (is.peers, is.count) (other_workers-get n w t is.in_range (omega (arith, small))) in
    let more : p.n_workers - 1 ≢ 0 = ground (arith, is.count) in
    (ground arith, steal-Stolen p (victim w t) rt c xs v more at_v at)
