-- ===== src/Worker/Spawns.antt =====
-- What `spawn` and `defer` do to the contents of the queues.
use yaay_rs.Base.{
  ℕ, ◌+◌, ◌%◌, ◌<◌, ◌≡◌, ◌≢◌, refl, List, [], ◌∷◌, ◌++◌, some, ◌==◌, if◌then◌else◌, get_elem?, set,
  arith, sym, ◌∙◌, ℕ_discrete,
}
use yaay_rs.Rng.Defs.{next_seed}
use yaay_rs.Epoch.Defs.{next_epoch}
use yaay_rs.Task.Heap.{Ptr}
use yaay_rs.TaskList.Chain.{Live}
use yaay_rs.TaskList.Alike.{Alike}
use yaay_rs.Shared.State.{Runtime, pure, and_then, lock_push_back, call_next_epoch}
use yaay_rs.Shared.View.{Contents, View, Nowhere}
use yaay_rs.Shared.Locked.{Ends, Ends-get, lock_push_back-View}
use yaay_rs.Worker.Peers.{other_workers, other_workers-get}
use yaay_rs.Worker.Targets.{nth_target}
use yaay_rs.Worker.Calls.{Private, spawn}

-- The data of worker `w` of `n`, as `WorkerBuilder::build` leaves them.
pub record IsWorker (n w : ℕ) (p : Private) : Type 0 where
  pub id : p.worker_id ≡ w
  pub in_range : w < n
  pub count : p.n_workers ≡ n
  pub peers : p.others ≡ other_workers n w

-- What `spawn` by `p` leaves: only its seed changes.
abbrev pub Reseeded : Private → Private → Type 0
Reseeded p p' = p' ≡ record p { seed = next_seed p.seed }

spawn-own :
    (p : Private) (task : Ptr) (rt rt' : Runtime)
    → p.n_workers ≢ 0
    → p.seed % p.n_workers + 1 ≡ p.n_workers
    → lock_push_back p.worker_id task rt ≡ some (tt, rt')
    → spawn p task rt ≡ some (record p { seed = next_seed p.seed }, rt')
unfolding spawn
spawn-own p task rt rt' ne e ran = ground arith

spawn-other :
    (p : Private) (task : Ptr) (target : ℕ) (rt rt' : Runtime)
    → p.n_workers ≢ 0
    → p.seed % p.n_workers + 1 ≢ p.n_workers
    → get_elem? p.others (p.seed % p.n_workers) ≡ some target
    → lock_push_back target task rt ≡ some (tt, rt')
    → spawn p task rt
      ≡ and_then (call_next_epoch rt') (λ _. pure (record p { seed = next_seed p.seed }))
unfolding spawn
spawn-other p task target rt rt' ne ne' at ran = ground arith

-- `spawn` appends the task to the queue of the worker that the seed selects, and to no other, takes the
-- next seed, and calls `next_epoch` exactly if that worker is not the spawning one. No task changes but
-- in its `next` pointer.
pub spawn-View :
    (n w : ℕ) (p : Private) (task : Ptr) (rt : Runtime) (c : Contents) (xs : List Ptr)
    → IsWorker n w p
    → View rt c
    → Live rt.heap task
    → Nowhere task c
    → get_elem? c (nth_target n w (p.seed % n)) ≡ some xs
    → Ends
        (λ p' rt'.
          Reseeded p p'
          × View rt' (set c (nth_target n w (p.seed % n)) (xs ++ task ∷ []))
          × (rt'.status ≡ (
              if nth_target n w (p.seed % n) == w then rt.status else (next_epoch rt.status).word))
          × Alike rt.heap rt'.heap)
        (spawn p task rt)
unfolding call_next_epoch
spawn-View n w p task rt c xs is v live out at =
    let i : ℕ = p.seed % n in
    let t : ℕ = nth_target n w i in
    let (_, rt', ran, post) =
      Ends-get (lock_push_back t task rt) (lock_push_back-View rt c v t xs at task live out) in
    elim (ℕ_discrete (i + 1) n) [
      | yes e ↦
          let own : t ≡ w = ground arith in
          rw
            (spawn-own p task rt rt' (grind (arith, is.count, is.in_range)) (rw is.count e)
              (rw (is.id ∙ sym own) ran))
            (refl, post.0, ground (arith, post.1.0), post.2)
      | no ne ↦
          let away : t ≢ w = ground arith in
          let at_t : get_elem? p.others (p.seed % p.n_workers) ≡ some t =
            rw (is.peers, is.count) (ground (arith, other_workers-get n w i is.in_range)) in
          rw
            (spawn-other p task t rt rt' (grind (arith, is.count, is.in_range)) (rw is.count ne)
              at_t ran)
            (refl, post.0, ground (arith, post.1.0), post.2)
    ]
