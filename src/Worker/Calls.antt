-- ===== src/Worker/Calls.antt =====
-- The calls of a worker on its own data and the shared state (yaay-mt-runtime/src/worker.rs).
use yaay_rs.Base.{
  ℕ, ◌+◌, ◌-◌, ◌%◌, Bool, false, List, Option, none, some, ◌==◌, if◌then◌else◌, get_elem?,
}
use yaay_rs.Rng.Defs.{next_seed}
use yaay_rs.Task.Heap.{Ptr, set_worker_id}
use yaay_rs.TaskList.Defs.{is_empty}
use yaay_rs.Shared.State.{
  M, pure, ◌>>=◌, ◌>>◌, on_heap, lock_push_back, lock_push_front, lock_pop_front, call_next_epoch,
}

-- `struct Private`; a worker is named by its id, and `epoch` is in the shared state.
pub record Private : Type 0 where
  pub seed : ℕ
  pub n_workers : ℕ
  pub others : List ℕ
  pub shutdown : Bool
  pub worker_id : ℕ

-- `Worker::new`, given the seed from the system time
unfoldable pub new : (worker_id n_workers : ℕ) → List ℕ → (seed : ℕ) → Private
new worker_id n_workers others seed = record {
  seed = seed;
  n_workers = n_workers;
  others = others;
  shutdown = false;
  worker_id = worker_id;
}

abbrev panic : {A : Type 0} → M A
panic rt = none

-- The entry of `other_workers`; out of bounds is undefined behaviour.
abbrev pub other : {A : Type 0} → Private → ℕ → (ℕ → M A) → M A
other p i k = elim (get_elem? p.others i) [ none ↦ panic | some worker ↦ k worker ]

unfoldable pub rng_gen : Private → ℕ × Private
rng_gen p = (p.seed, record p { seed = next_seed p.seed })

unfoldable pub defer : Private → Ptr → M (Unit {0})
defer p task = lock_push_front p.worker_id task

unfoldable pub spawn : Private → Ptr → M Private
spawn p task =
    let target_index = p.seed % p.n_workers in
    let p' = record p { seed = next_seed p.seed } in
    if p.n_workers == 0
    then panic
    else (if target_index + 1 == p.n_workers
        then (do lock_push_back p.worker_id task; pure p')
        else other p target_index λ target. do lock_push_back target task; call_next_epoch; pure p')

-- `task_list.is_empty()`, a read of the head with no lock
unfoldable pub peek_empty : ℕ → M Bool
peek_empty i rt = elim (get_elem? rt.queues i) [ none ↦ none | some l ↦ some (is_empty l, rt) ]

-- What `try_steal` does with the result of its pop.
unfoldable pub after_steal : Private → Option Ptr → M (Option Ptr × Private)
after_steal p none = pure (none, record p { seed = next_seed p.seed })
after_steal p (some task) = do on_heap (set_worker_id task p.worker_id); pure (some task, p)

unfoldable pub try_steal : Private → M (Option Ptr × Private)
unfolding after_steal peek_empty
try_steal p =
    if p.n_workers - 1 == 0
    then panic
    else (other p (p.seed % (p.n_workers - 1)) λ victim. do
      empty ← peek_empty victim
      task ← (if empty then pure none else lock_pop_front victim)
      after_steal p task)
