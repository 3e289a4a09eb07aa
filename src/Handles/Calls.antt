-- ===== src/Handles/Calls.antt =====
-- The calls on one thread's data, and the making of a handle.
use yaay_rs.Base.{
  set-set, ℕ, ◌+◌, ◌<◌, ◌%◌, ◌^◌, ◌==◌, ◌≡◌, refl, Bool, true, false, Option, some, length,
  get_elem?, set, get_elem?-set_lt, lt_of_get_elem?, arith,
}
use yaay_rs.Task.Heap.{null}
use yaay_rs.Registry.{Slab, slot, store}
use yaay_rs.Handles.{
  Interest, LocalData, GlobalData, with_local, with_dispatchers, choose, store_interest, new_handle,
}

-- The state with `l` for the data of thread `i`.
abbrev pub holding : GlobalData → ℕ → LocalData → GlobalData
holding g i l = record g { locals = set g.locals i l }

pub with_local-run :
    (g : GlobalData) (i : ℕ) (l l' : LocalData) (f : LocalData → Option LocalData)
    → i < length g.locals
    → f l ≡ some l'
    → with_local i f (holding g i l) ≡ some (holding g i l')
with_local-run g i l l' f lt ran =
    let at : get_elem? (set g.locals i l) i ≡ some l = get_elem?-set_lt g.locals i l lt in
    rw (at, ran, set-set g.locals i l l') refl

with_dispatchers-run :
    (f : Slab → Option Slab) (l : LocalData) (s : Slab)
    → f l.dispatchers ≡ some s
    → with_dispatchers f l ≡ some (record l { dispatchers = s })
with_dispatchers-run f l s ran = rw ran refl

pub on_slab :
    (g : GlobalData) (i : ℕ) (l : LocalData) (f : Slab → Option Slab) (s : Slab)
    → i < length g.locals
    → f l.dispatchers ≡ some s
    → with_local i (with_dispatchers f) (holding g i l)
      ≡ some (holding g i (record l { dispatchers = s }))
on_slab g i l f s lt ran =
    with_local-run g i l (record l { dispatchers = s }) (with_dispatchers f) lt
      (with_dispatchers-run f l s ran)

module _ (vacant : Slab → ℕ) (registers : LocalData → ℕ → Interest → Bool) where
  choose-run :
      (g : GlobalData)
      → 0 < length g.locals
      → choose g
        ≡ some (g.counter % length g.locals, record g { counter = (g.counter + 1) % 2 ^ 64 })
  unfolding choose
  choose-run g pos = let ne : (length g.locals == 0) ≡ false = ground (arith, pos) in rw ne refl

  -- A new handle is for the thread whose turn it is, has the key that the slab gives, and is registered.
  pub new_handle-run :
      (ready : Interest) (g : GlobalData) (i : ℕ) (l : LocalData)
      → i ≡ g.counter % length g.locals
      → get_elem? g.locals i ≡ some l
      → ((l' : LocalData) (k : ℕ) → registers l' k ready ≡ true)
      → let k = vacant l.dispatchers in
        new_handle vacant registers ready g
        ≡ some (
          record { local_i = i; key = k },
          holding
              (record g { counter = (g.counter + 1) % 2 ^ 64 })
              i
              (record l {
                dispatchers = store l.dispatchers k (some (slot null null));
                registered = store_interest l.registered k (some ready);
              }),
        )
  unfolding new_handle
  new_handle-run ready g i l e at may =
      let pos : 0 < length g.locals = omega (arith, lt_of_get_elem? g.locals i l at) in
      let at' : get_elem? g.locals (g.counter % length g.locals) ≡ some l = rw (← e) at in
      rw (choose-run g pos, at', may, e) refl
