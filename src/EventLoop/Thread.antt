-- ===== src/EventLoop/Thread.antt =====
-- The whole of a reactor thread, from `RT::batch_guard()` to its end (yaay-mio/src/shared.rs): the loop
-- that ends by SHUTDOWN, the removal of the keys that are left (`'outer0`) and the drop of the guard.
-- What the other threads do while this one is in `poll`, what `poll` returns and what is then in
-- `deferred_remove` are parameters.
use yaay_rs.Base.{bind, ℕ, zero, suc, Bool, List, Option, none, some, if◌then◌else◌}
use yaay_rs.Registry.{Slab}
use yaay_rs.RuntimeApi.{RuntimeApi}
use yaay_rs.EventLoop.{Event, LoopState, Act, start, round, remove_all}

-- What a turn of the loop finds after `poll`
pub record Found : Type 0 where
  pub slab : Slab
  pub state : LoopState
  pub events : List Event
  pub deferred : List ℕ

-- The turn, and what its thread left behind
abbrev pub Others : Type 0
Others = ℕ → Slab → LoopState → Found

-- The drop of `batch`
unfoldable pub drop_batch : RuntimeApi → Act
drop_batch api s = elim (api.drop_guard s.local s.rt) [
  | none ↦ none
  | some (local, rt) ↦ some (record s { rt = rt; local = local })
]

-- `'outer0`, and the end of the closure
unfoldable pub finish : RuntimeApi → Others → ℕ → Slab → LoopState → Option (Slab × LoopState)
finish api others n slab s =
    let found : Found = others n slab s in
    bind (remove_all found.deferred found.slab)
      λ slab'. bind (drop_batch api found.state) λ s'. some (slab', s')

-- The reads of SHUTDOWN, by the turns
module _ (api : RuntimeApi) (shutdown : ℕ → Bool) (others : Others) where
  -- `while !SHUTDOWN.load(Acquire)`, from the turn `n` on; its result has the turn of the last read.
  unfoldable pub event_loop : ℕ → ℕ → Slab → LoopState → Option (ℕ × Slab × LoopState)
  event_loop zero n slab s = none
  event_loop (suc fuel) n slab s =
      let found : Found = others n slab s in
      if shutdown n
      then some (n, slab, s)
      else bind (round api found.slab found.deferred found.events found.state)
          λ (slab', s'). event_loop fuel (suc n) slab' s'

  unfoldable pub reactor : ℕ → Slab → LoopState → Option (Slab × LoopState)
  reactor fuel slab s =
      bind (start api s)
        λ s1. bind (event_loop fuel 0 slab s1) λ (n, slab2, s2). finish api others n slab2 s2
