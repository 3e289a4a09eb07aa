-- ===== src/Handles/Lifecycle.antt =====
-- A stream from its connection to the drop of its cell leaves its reactor thread as it was.
use yaay_rs.Base.{
  ℕ, ◌+◌, ◌<◌, ◌%◌, ◌^◌, ◌≡◌, ◌≢◌, refl, sym, Bool, true, ◌∷◌, Option, none, some, bind, length,
  get_elem?, set, lt_of_get_elem?, arith,
}
use yaay_rs.Task.Heap.{Ptr, null}
use yaay_rs.Registry.{Slab, slot, store, install_readable, install_writable, del, remove}
use yaay_rs.Registry.Calls.{
  install_readable-run, install_writable-run, del-run_r, del-run_w, check_closed-run, remove-run,
}
use yaay_rs.Io.{ok, err}
use yaay_rs.Handles.{
  Interest, readable_or_writable, LocalData, GlobalData, MioCell, store_interest, new_handle,
  new_rw, connect, new_reader, new_writer, drop_mio, drop_cell,
}
use yaay_rs.Handles.Calls.{holding, with_local-run, on_slab, new_handle-run}

store-same : (slab : Slab) (k : ℕ) (s : Option _) → store slab k s k ≡ s
store-same slab k s = ground arith

-- What the reader, the writer and the drops do to the slab, for the key `k`.
abbrev pub reader_slab : Slab → ℕ → Ptr → Slab
reader_slab s k p = store s k (some (slot p null))

abbrev pub both_slab : Slab → ℕ → Ptr → Ptr → Slab
both_slab s k p q = store (reader_slab s k p) k (some (slot p q))

abbrev pub writer_slab : Slab → ℕ → Ptr → Ptr → Slab
writer_slab s k p q = store (both_slab s k p q) k (some (slot null q))

abbrev pub bare_slab : Slab → ℕ → Ptr → Ptr → Slab
bare_slab s k p q = store (writer_slab s k p q) k (some (slot null null))

-- A reader and a writer are made for a cell, and dropped, and then the cell.
abbrev pub use_cell : MioCell → Ptr → Ptr → GlobalData → Option GlobalData
use_cell cell p q g = bind (new_reader cell p g) λ g1.
    bind (new_writer cell q g1)
      λ g2. bind (drop_mio cell p g2) λ g3. bind (drop_mio cell q g3) (drop_cell cell)

module _ (g : GlobalData) (i : ℕ) (l : LocalData) (k : ℕ) (p q : Ptr) (lt : i < length g.locals)
    (at : l.dispatchers k ≡ some (slot null null)) where
  abbrev cell : MioCell
  cell = record { local_i = i; key = k }

  abbrev slab : Slab
  slab = l.dispatchers

  abbrev with_slab : Slab → GlobalData
  with_slab s = holding g i (record l { dispatchers = s })

  -- What is left: the key in the list of those to be removed.
  abbrev pub deferred : LocalData
  deferred = record l {
    registered = store_interest l.registered k none;
    dispatchers = bare_slab slab k p q;
    deferred_remove = k ∷ l.deferred_remove;
  }

  drop_cell-run :
      (s : Slab)
      → s k ≡ some (slot null null)
      → drop_cell cell (with_slab s)
        ≡ some (
            holding g i (record l {
              registered = store_interest l.registered k none;
              dispatchers = s;
              deferred_remove = k ∷ l.deferred_remove;
            }))
  unfolding drop_cell
  drop_cell-run s at_s =
      with_local-run g i (record l { dispatchers = s }) _ _ lt (rw (check_closed-run s k at_s) refl)

  pub use_cell-run : q ≢ null → use_cell cell p q (holding g i l) ≡ some (holding g i deferred)
  unfolding new_reader new_writer drop_mio
  use_cell-run ne =
      let s1 = reader_slab slab k p in
      let s2 = both_slab slab k p q in
      let s3 = writer_slab slab k p q in
      let s4 = bare_slab slab k p q in
      let e1 = on_slab g i l (install_readable p k) s1 lt (install_readable-run slab k p null at) in
      let e2 =
        on_slab g i (record l { dispatchers = s1 }) (install_writable q k) s2 lt
          (install_writable-run s1 k q p (store-same slab k _)) in
      let e3 =
        on_slab g i (record l { dispatchers = s2 }) (del p k) s3 lt
          (del-run_r s2 k p q (store-same s1 k _)) in
      let e4 =
        on_slab g i (record l { dispatchers = s3 }) (del q k) s4 lt
          (del-run_w s3 k null q (store-same s2 k _) (λ e. ne (sym e))) in
      rw (e1, e2, e3, e4) (drop_cell-run s4 (store-same s3 k _))

module _ (vacant : Slab → ℕ) (registers : LocalData → ℕ → Interest → Bool) where
  -- A stream is connected and used, and dropped.
  abbrev pub stream_life : Ptr → Ptr → GlobalData → Option GlobalData
  stream_life p q g =
      bind (connect vacant registers (ok tt) g)
        λ (res, g1). elim res [ ok (r, w) ↦ use_cell r p q g1 | err e ↦ none ]

  connect-run :
      (g g' : GlobalData) (cell : MioCell)
      → new_handle vacant registers readable_or_writable g ≡ some (cell, g')
      → connect vacant registers (ok tt) g ≡ some (ok (cell, cell), g')
  unfolding connect new_rw
  connect-run g g' cell ran = rw ran refl

  -- A stream's life, from `connect` to the drop of its cell, ends without a panic. Then the data of
  -- every other reactor thread are as before. On the thread whose turn it was, the key that the stream
  -- had is registered no more and is the last of `deferred_remove`, and when it is removed, the slab is
  -- what it was. It is assumed that the slab gave a vacant key, that mio knew no source by that key and
  -- accepts the registration, and that the address of the writer's dispatcher is not null.
  pub stream_life-reclaimed :
      (g : GlobalData) (l : LocalData) (p q : Ptr)
      → get_elem? g.locals (g.counter % length g.locals) ≡ some l
      → l.dispatchers (vacant l.dispatchers) ≡ none
      → l.registered (vacant l.dispatchers) ≡ none
      → ((l' : LocalData) (k : ℕ) → registers l' k readable_or_writable ≡ true)
      → q ≢ null
      → (l' : LocalData) × (slab : Slab) × (stream_life p q g
          ≡ some (record g {
            locals = set g.locals (g.counter % length g.locals) l';
            counter = (g.counter + 1) % 2 ^ 64;
          }))
        × (l'.deferred_remove ≡ vacant l.dispatchers ∷ l.deferred_remove)
        × ((k : ℕ) → l'.registered k ≡ l.registered k)
        × (remove (vacant l.dispatchers) l'.dispatchers ≡ some slab)
        × ((k : ℕ) → slab k ≡ l.dispatchers k)
  stream_life-reclaimed g l p q at vac unknown may ne =
      let i : ℕ = g.counter % length g.locals in
      let k : ℕ = vacant l.dispatchers in
      let lt : i < length g.locals = lt_of_get_elem? g.locals i l at in
      let g1 : GlobalData = record g { counter = (g.counter + 1) % 2 ^ 64 } in
      let l1 : LocalData = record l {
        dispatchers = store l.dispatchers k (some (slot null null));
        registered = store_interest l.registered k (some readable_or_writable);
      } in
      let start =
        connect-run g (holding g1 i l1) (record { local_i = i; key = k })
          (new_handle-run vacant registers readable_or_writable g i l refl at may) in
      let used = use_cell-run g1 i l1 k p q lt (store-same l.dispatchers k _) ne in
      let l' : LocalData = deferred g1 i l1 k p q lt (store-same l.dispatchers k _) in
      (
        l',
        store l'.dispatchers k none,
        rw start used,
        refl,
        λ j. ground (arith, unknown),
        remove-run l'.dispatchers k (slot null null)
            (store-same (writer_slab l1.dispatchers k p q) k _),
        λ j. ground (arith, vac),
      )
