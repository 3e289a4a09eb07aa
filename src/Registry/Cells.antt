-- ===== src/Registry/Cells.antt =====
-- Every step keeps the invariant of the slots.
use yaay_rs.Base.{
  ℕ, zero, suc, ◌≤◌, ◌≡◌, refl, none, some, List, [], ◌∷◌, get_elem?, total, total-set, total-get,
  arith, sym, ap, subst, total-find,
}
use yaay_rs.Task.Heap.{null}
use yaay_rs.Registry.{
  Slot, slot, Slab, store, look_up, remove, Cell, fresh, inserted, live, failed, closed, gone, Loop,
  polling, fetched, dispatching, draining, Registry, settle, go, At, AllIn, RegistryStep, AllFresh,
  init_registry, RegistryReach, begin, later,
}
use yaay_rs.Registry.Calls.{
  install_readable-run, install_writable-run, del-run_r, del-run_w, check_closed-run,
}
use yaay_rs.Registry.Invariant.{
  occ, is_key, holds, opens, count, removes, events_of, Fits, AllOccupied, Inv, occ-le_one,
  opens-le_holds, AllOccupied-mono, others-holds, vacant-holds, Fits-set, Fits-go, Fits-store,
}

-- A slot that is there is changed, and the cell that owns it with it; all else stays.
change-Inv :
    {s : Registry} (i k : ℕ) (c d : Cell) (o o' : Slot)
    → Inv s
    → At s i c
    → s.slab k ≡ some o
    → holds k c ≡ 1
    → ((j : ℕ) → (holds j d ≡ holds j c) × (opens j d ≡ opens j c))
    → Fits (store s.slab k (some o')) d
    → Inv (record (go s i d) { slab = store s.slab k (some o') })
change-Inv {s} i k c d o o' v at at_k own same fit = record {
  keys = λ j. ground (
    arith,
    v.keys j,
    same j,
    total-set (holds j) s.cells i c d at,
    total-set (opens j) s.cells i c d at,
  );
  fits =
      Fits-set v k i c d (some o') at fit (λ j e ne at_j. others-holds v k i j c e at own ne at_j);
  events = AllOccupied-mono s.slab _ (events_of s.loop) (λ j. ground arith) v.events;
  sound = v.sound;
}

holds_self : (k : ℕ) → is_key k k ≡ 1
holds_self k = ground arith

look_up-run : (slab : Slab) (k : ℕ) → 1 ≤ occ (slab k) → look_up k slab ≡ some slab
unfolding look_up
look_up-run slab k here = ground arith

remove-run : (slab : Slab) (k : ℕ) → 1 ≤ occ (slab k) → remove k slab ≡ some (store slab k none)
unfolding remove
remove-run slab k here = ground arith

-- The loop goes on from `l` to `l'`, with the key that it removes, if any, kept.
loop-Inv :
    {s : Registry} (l l' : Loop)
    → Inv s
    → s.loop ≡ l
    → ((k : ℕ) → removes k l' ≡ removes k l)
    → AllOccupied s.slab (events_of l')
    → Inv (record s { loop = l' })
loop-Inv {s} l l' v e same events = record {
  keys = λ k. ground (arith, v.keys k, same k, ap (removes k) e);
  fits = v.fits;
  events = events;
  sound = v.sound;
}

-- The keys of registered sources are in use.
registered-occupied :
    {s : Registry} (v : Inv s) (ks : List ℕ) → AllIn s.registered ks → AllOccupied s.slab ks
registered-occupied v [] all = tt
registered-occupied {s} v (k ∷ ks) all =
    let (i, c, at, own) = total-find (opens k) s.cells ((v.keys k).opened all.0) in
    (
      omega (arith, (v.keys k).owned, own, opens-le_holds k c, total-get (holds k) s.cells i c at),
      registered-occupied v ks all.1,
    )

-- The events of the loop, where its place is known.
known-events : {s : Registry} (l : Loop) → Inv s → s.loop ≡ l → AllOccupied s.slab (events_of l)
known-events {s} l v e = subst (λ l. AllOccupied s.slab (events_of l)) e v.events

Step-Inv : {s t : Registry} → RegistryStep s t → Inv s → Inv t
Step-Inv {s} (RegistryStep.insert i k at unlocked e) v = record {
  keys = λ j. ground (
    arith,
    v.keys j,
    ap occ e,
    total-set (holds j) s.cells i fresh (inserted k) at,
    total-set (opens j) s.cells i fresh (inserted k) at,
  );
  fits =
      Fits-set v k i fresh (inserted k) (some (slot null null)) at (ground arith)
        (λ j c ne at_j. vacant-holds v k j c e at_j);
  events = AllOccupied-mono s.slab _ (events_of s.loop) (λ j. ground (arith, ap occ e)) v.events;
  sound = v.sound;
}
Step-Inv {s} (RegistryStep.register i {k} at) v = record {
  keys = λ j. ground (
    arith,
    v.keys j,
    total-set (holds j) s.cells i (inserted k) (live k null null) at,
    total-set (opens j) s.cells i (inserted k) (live k null null) at,
  );
  fits =
      Fits-go v i (inserted k) (live k null null) at
        (v.fits i (inserted k) at, λ ne. absurd (ne refl));
  events = v.events;
  sound = v.sound;
}
Step-Inv {s} (RegistryStep.register_fails i {k} at) v = record {
  keys = λ j. ground (
    arith,
    v.keys j,
    total-set (holds j) s.cells i (inserted k) (failed k) at,
    total-set (opens j) s.cells i (inserted k) (failed k) at,
  );
  fits = Fits-go v i (inserted k) (failed k) at (v.fits i (inserted k) at);
  events = v.events;
  sound = v.sound;
}
Step-Inv {s} (RegistryStep.new_r i {k} {w} p at unlocked ne apart) v =
    let fit = v.fits i (live k null w) at in
    rw (install_readable-run s.slab k p w fit.0, settle)
      (change-Inv i k (live k null w) (live k p w) (slot null w) (slot p w) v at fit.0
        (holds_self k) (λ j. (refl, refl)) (ground arith, λ ne_w. apart))
Step-Inv {s} (RegistryStep.new_w i {k} {r} p at unlocked ne apart) v =
    let fit = v.fits i (live k r null) at in
    rw (install_writable-run s.slab k p r fit.0, settle)
      (change-Inv i k (live k r null) (live k r p) (slot r null) (slot r p) v at fit.0
        (holds_self k) (λ j. (refl, refl)) (ground arith, λ ne_p e. apart (sym e)))
Step-Inv {s} (RegistryStep.drop_r i {k} {r} {w} at unlocked ne) v =
    let fit = v.fits i (live k r w) at in
    rw (del-run_r s.slab k r w fit.0, settle)
      (change-Inv i k (live k r w) (live k null w) (slot r w) (slot null w) v at fit.0
        (holds_self k) (λ j. (refl, refl)) (ground arith, λ ne_w e. ne_w (sym e)))
Step-Inv {s} (RegistryStep.drop_w i {k} {r} {w} at unlocked ne) v =
    let fit = v.fits i (live k r w) at in
    rw (del-run_w s.slab k r w fit.0 (fit.1 ne), settle)
      (change-Inv i k (live k r w) (live k r null) (slot r w) (slot r null) v at fit.0
        (holds_self k) (λ j. (refl, refl)) (ground arith, λ bad. absurd (bad refl)))
Step-Inv {s} (RegistryStep.deregister i {k} at) v = record {
  keys = λ j. ground (
    arith,
    v.keys j,
    total-set (holds j) s.cells i (live k null null) (closed k) at,
    total-set (opens j) s.cells i (live k null null) (closed k) at,
  );
  fits = Fits-go v i (live k null null) (closed k) at (v.fits i (live k null null) at).0;
  events = v.events;
  sound = v.sound;
}
Step-Inv {s} (RegistryStep.defer i {k} at unlocked) v =
    rw (check_closed-run s.slab k (v.fits i (closed k) at), settle)
      (record {
        keys = λ j. ground (
          arith,
          v.keys j,
          total-set (holds j) s.cells i (closed k) gone at,
          total-set (opens j) s.cells i (closed k) gone at,
        );
        fits = Fits-go v i (closed k) gone at tt;
        events = v.events;
        sound = v.sound;
      })
Step-Inv {s} (RegistryStep.poll events e all) v =
    loop-Inv polling (fetched events) v e (λ k. refl) (registered-occupied v events all)
Step-Inv {s} (RegistryStep.lock {events} e) v =
    loop-Inv (fetched events) (dispatching events) v e (λ k. refl)
      (known-events (fetched events) v e)
Step-Inv {s} (RegistryStep.dispatch {k} {events} e) v =
    let known = known-events (dispatching (k ∷ events)) v e in
    rw (look_up-run s.slab k known.0, settle)
      (loop-Inv (dispatching (k ∷ events)) (dispatching events) v e (λ k. refl) known.1)
Step-Inv {s} (RegistryStep.unlock e) v = loop-Inv (dispatching []) draining v e (λ k. refl) tt
Step-Inv {s} (RegistryStep.pop {k} {deferred} e f) v = record {
  keys = λ j. ground (arith, v.keys j, ap (removes j) e, ap (count j) f);
  fits = v.fits;
  events = tt;
  sound = v.sound;
}
Step-Inv {s} (RegistryStep.remove_key {k} e) v =
    let here : 1 ≤ occ (s.slab k) =
      omega (arith, (v.keys k).owned, ap (removes k) e, holds_self k) in
    rw (remove-run s.slab k here, settle)
      (record {
        keys = λ j. ground (arith, v.keys j, ap (removes j) e, occ-le_one (s.slab j));
        fits = λ i c at.
            Fits-store s.slab k none c
              (omega (
                arith,
                (v.keys k).owned,
                ap (removes k) e,
                holds_self k,
                occ-le_one (s.slab k),
                total-get (holds k) s.cells i c at,
              ))
              (v.fits i c at);
        events = tt;
        sound = v.sound;
      })
Step-Inv {s} (RegistryStep.drained e f) v = loop-Inv draining polling v e (λ k. refl) tt

total-AllFresh : (w : Cell → ℕ) (cs : List Cell) → w fresh ≡ 0 → AllFresh cs → total w cs ≡ 0
unfolding total
total-AllFresh w [] z all = refl
total-AllFresh w (c ∷ cs) z all = rw all.0 (omega (arith, total-AllFresh w cs z all.1))

Fits-fresh :
    (slab : Slab) (cs : List Cell) (i : ℕ) (c : Cell)
    → AllFresh cs
    → get_elem? cs i ≡ some c
    → Fits slab c
Fits-fresh slab [] i c all at = absurd (ground arith)
Fits-fresh slab (d ∷ cs) zero c all at = let e : fresh ≡ c = cc (all.0) in rw (← e) tt
Fits-fresh slab (d ∷ cs) (suc i) c all at = Fits-fresh slab cs i c all.1 at

init-Inv : (cs : List Cell) → AllFresh cs → Inv (init_registry cs)
init-Inv cs all = record {
  keys = λ k. ground (arith, total-AllFresh (holds k) cs refl all);
  fits = λ i c at. Fits-fresh (λ k. none) cs i c all at;
  events = tt;
  sound = refl;
}

pub Reach-Inv : {s : Registry} → RegistryReach s → Inv s
Reach-Inv (begin cells all) = init-Inv cells all
Reach-Inv (later r st) = Step-Inv st (Reach-Inv r)
