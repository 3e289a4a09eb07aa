-- ===== src/Teardown/Release.antt =====
-- The body of the loop on one task of the queues.
use yaay_rs.Base.{
  ◌+◌, ◌≤◌, ◌<◌, ◌≡◌, ◌≢◌, refl, sym, ap, ◌∙◌, false, List, some, ◌==◌, arith, beq-ne, ℕ_discrete,
}
use yaay_rs.Task.Status.{Status, or_bits, and_bits, has_bits, dropped_bit}
use yaay_rs.Task.Heap.{Ptr, null, Heap, Task, Cmd, write, load, store}
use yaay_rs.TaskList.Chain.{write-other}
use yaay_rs.TaskList.Alike.{rc_of}
use yaay_rs.TaskList.Drain.{each}
use yaay_rs.Wake.{fetch_or}
use yaay_rs.Teardown.{rc, rc_dec, drop_in_place, release}
use yaay_rs.Teardown.Counts.{
  minus, Sound, hit, count, Lost, rc_of-minus, minus-minus, Lost-Sound, live_at, ne_null,
  rc_dec-Lost, each-Lost,
}

-- The heap in which the task `t` at `x` has its bit DROPPED.
abbrev pub marked : Heap → Ptr → Task → Heap
marked h x t = write h x (some (record t { status = or_bits t.status dropped_bit }))

pub marked_rc :
    (h : Heap) (x : Ptr) (t : Task)
    → h x ≡ some t
    → (a : Ptr) → rc_of (marked h x t a) ≡ rc_of (h a)
unfolding write
marked_rc h x t at a = elim (ℕ_discrete a x) [
  | yes e ↦ ground (arith, ap h e ∙ at, ap rc_of (ap h e ∙ at))
  | no ne ↦ ap rc_of (write-other h x _ a ne)
]

pub marked-Sound : (h : Heap) (x : Ptr) (t : Task) → Sound h → h x ≡ some t → Sound (marked h x t)
unfolding write
marked-Sound h x t sound at = record {
  none_at_null = ground (arith, ne_null sound at, sound.none_at_null);
  counted = λ a u e. elim (ℕ_discrete a x) [
    | yes same ↦ ground (arith, sound.counted x t at)
    | no ne ↦ sound.counted a u (sym (write-other h x _ a ne) ∙ e)
  ];
}

rc-run : (h : Heap) (x : Ptr) (t : Task) → x ≢ null → h x ≡ some t → rc x h ≡ some (t.rc, h)
unfolding rc
rc-run h x t ne at = ground (arith, at, ne)

has_dropped : (s : Status) → has_bits (and_bits s dropped_bit) ≡ s.dropped
has_dropped s = ground arith

drop_in_place-run :
    (f : Ptr → Cmd (Unit {0})) (h : Heap) (x : Ptr) (t : Task)
    → x ≢ null
    → h x ≡ some t
    → t.status.dropped ≡ false
    → drop_in_place f x h ≡ f x (marked h x t)
unfolding drop_in_place fetch_or load store
drop_in_place-run f h x t ne at fresh =
    rw (beq-ne x null ne, at, at, has_dropped t.status, fresh) refl

release-run :
    (f : Ptr → Cmd (Unit {0})) (h g1 g : Heap) (x : Ptr) (t t1 : Task)
    → x ≢ null
    → 0 < t.rc
    → h x ≡ some t
    → t.status.dropped ≡ false
    → f x (marked h x t) ≡ some (tt, g1)
    → g1 x ≡ some t1
    → rc_dec x g1 ≡ some (tt, g)
    → release f x h ≡ some (tt, g)
unfolding release
release-run f h g1 g x t t1 ne pos at fresh dropped at1 ran =
    let pos1 : (t.rc == 0) ≡ false = beq-ne t.rc 0 (λ e. omega (arith, e)) in
    rw
      (
        rc-run h x t ne at,
        pos1,
        drop_in_place-run f h x t ne at fresh,
        dropped,
        rc-run g1 x t1 ne at1,
      )
      ran

-- One task of the loop: it has lost the reference of the queue, and all tasks those that its future held.
pub release-Lost :
    (f : Ptr → Cmd (Unit {0})) (h : Heap) (x : Ptr) (ws : List Ptr) (t : Task)
    → Sound h
    → h x ≡ some t
    → t.status.dropped ≡ false
    → f x ≡ each rc_dec ws
    → ((a : Ptr) → hit a x + count a ws ≤ rc_of (h a))
    → (g : Heap) × (release f x h ≡ some (tt, g))
      × Lost (λ a. hit a x + count a ws) (marked h x t) g
release-Lost f h x ws t sound at fresh drops enough =
    let h1 : Heap = marked h x t in
    let sound1 = marked-Sound h x t sound at in
    let (g1, ran1, lost1) =
      each-Lost h1 ws sound1 (λ a. omega (arith, enough a, marked_rc h x t at a)) in
    let own : hit x x ≡ 1 = ground arith in
    let left : 0 < rc_of (g1 x) = omega (
      arith,
      own,
      enough x,
      ap rc_of (lost1 x),
      rc_of-minus (count x ws) (h1 x),
      marked_rc h x t at x,
    ) in
    let (t1, at1) = live_at g1 x left in
    let (g, ran, lost) = rc_dec-Lost x t1 (Lost-Sound (λ a. count a ws) h1 g1 sound1 lost1) at1 in
    (
      g,
      release-run f h g1 g x t t1 (ne_null sound at) (sound.counted x t at).0 at fresh
          (ap (λ c. c h1) drops ∙ ran1) at1 ran,
      λ a.
          lost a
          ∙ (ap (minus (hit a x)) (lost1 a)
              ∙ (minus-minus (hit a x) (count a ws) (h1 a)
                  ∙ ap (λ k. minus k (h1 a)) (omega arith))),
    )
