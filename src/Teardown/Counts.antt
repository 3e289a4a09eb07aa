-- ===== src/Teardown/Counts.antt =====
-- What the drop of references does to the counts of all tasks.
use yaay_rs.Base.{
  ℕ, ◌+◌, ◌-◌, ◌≤◌, ◌<◌, ◌≡◌, ◌≢◌, refl, ◌∙◌, ap, List, [], ◌∷◌, Option, none, some, ltb, ◌==◌,
  if◌then◌else◌, arith, Option-cases, inl, inr, ℕ_discrete,
}
use yaay_rs.Task.Heap.{Ptr, null, Heap, Task, write}
use yaay_rs.TaskList.Alike.{rc_of}
use yaay_rs.TaskList.Drain.{each}
use yaay_rs.Teardown.{max_rc, rc_dec}

-- The task after `k` references to it have gone.
abbrev pub minus : ℕ → Option Task → Option Task
minus k none = none
minus k (some t) = if ltb k t.rc then some (record t { rc = t.rc - k }) else none

-- Every task that lives has a reference, and no count has overflowed.
pub record Sound (h : Heap) : Type 0 where
  pub none_at_null : h null ≡ none
  pub counted : (a : Ptr) (t : Task) → h a ≡ some t → (0 < t.rc) × (t.rc ≤ max_rc)

abbrev pub hit : Ptr → Ptr → ℕ
hit a p = if a == p then 1 else 0

abbrev pub count : Ptr → List Ptr → ℕ
count a [] = 0
count a (w ∷ ws) = hit a w + count a ws

-- `g` is `h` after `k a` references to each `a` have gone.
abbrev pub Lost : (Ptr → ℕ) → Heap → Heap → Type 0
Lost k h g = (a : Ptr) → g a ≡ minus (k a) (h a)

pub rc_of-minus : (k : ℕ) (o : Option Task) → rc_of (minus k o) ≡ rc_of o - k
rc_of-minus k none = omega arith
rc_of-minus k (some t) = ground arith

pub minus-minus : (k m : ℕ) (o : Option Task) → minus k (minus m o) ≡ minus (m + k) o
minus-minus k m none = refl
minus-minus k m (some t) = ground arith

minus_zero : {h : Heap} (a : Ptr) → Sound h → h a ≡ minus 0 (h a)
minus_zero {h} a sound = elim (Option-cases (h a)) [
  | inl e ↦ rw e refl
  | inr (t, e) ↦ let pos = (sound.counted a t e).0 in rw e (ground arith)
]

pub Lost-Sound : (k : Ptr → ℕ) (h g : Heap) → Sound h → Lost k h g → Sound g
Lost-Sound k h g sound lost = record {
  none_at_null = lost null ∙ ap (minus (k null)) sound.none_at_null;
  counted = λ a t e. elim (Option-cases (h a)) [
    | inl gone ↦ absurd (ground (arith, lost a))
    | inr (u, at) ↦ ground (arith, lost a, sound.counted a u at)
  ];
}

pub live_at : (h : Heap) (a : Ptr) → 0 < rc_of (h a) → (t : Task) × (h a ≡ some t)
live_at h a pos = elim (Option-cases (h a)) [
  | inl e ↦ absurd (omega (arith, ap rc_of e))
  | inr found ↦ found
]

pub ne_null : {h : Heap} {a : Ptr} {t : Task} → Sound h → h a ≡ some t → a ≢ null
ne_null sound at e = cc (sound.none_at_null)

hit-Lost :
    (h g : Heap) (p : Ptr)
    → Sound h
    → ((a : Ptr) → a ≢ p → g a ≡ h a)
    → g p ≡ minus 1 (h p)
    → Lost (λ a. hit a p) h g
hit-Lost h g p sound same here a = elim (ℕ_discrete a p) [
  | yes e ↦ let one : hit p p ≡ 1 = ground arith in rw (e, one) here
  | no ne ↦
      let zero_hits : hit a p ≡ 0 = ground arith in rw zero_hits (same a ne ∙ minus_zero a sound)
]

pub rc_dec-Lost :
    {h : Heap} (p : Ptr) (t : Task)
    → Sound h
    → h p ≡ some t
    → (g : Heap) × (rc_dec p h ≡ some (tt, g)) × Lost (λ a. hit a p) h g
unfolding rc_dec write
rc_dec-Lost {h} p t sound at =
    let pos : 0 < t.rc = (sound.counted p t at).0 in
    elim (ℕ_discrete t.rc 1) [
      | yes last ↦ (
        write (write h p (some (record t { rc = t.rc - 1 }))) p none,
        ground (arith, at, ne_null sound at),
        hit-Lost h _ p sound (λ a ne. ground arith) (ground (arith, at)),
      )
      | no more ↦ (
        write h p (some (record t { rc = t.rc - 1 })),
        ground (arith, at, ne_null sound at),
        hit-Lost h _ p sound (λ a ne. ground arith) (ground (arith, at)),
      )
    ]

-- A sequence of drops of references that are all there.
pub each-Lost :
    (h : Heap) (ws : List Ptr)
    → Sound h
    → ((a : Ptr) → count a ws ≤ rc_of (h a))
    → (g : Heap) × (each rc_dec ws h ≡ some (tt, g)) × Lost (λ a. count a ws) h g
unfolding each
each-Lost h [] sound enough = (h, refl, λ a. minus_zero a sound)
each-Lost h (w ∷ ws) sound enough =
    let own : hit w w ≡ 1 = ground arith in
    let (t, at) = live_at h w (omega (arith, enough w, own)) in
    let (g, ran, lost) = rc_dec-Lost w t sound at in
    let (g', ran', lost') =
      each-Lost g ws (Lost-Sound (λ a. hit a w) h g sound lost)
        (λ a. omega (arith, enough a, ap rc_of (lost a), rc_of-minus (hit a w) (h a))) in
    (
      g',
      rw ran ran',
      λ a. lost' a ∙ (ap (minus (count a ws)) (lost a) ∙ minus-minus (count a ws) (hit a w) (h a)),
    )
