-- ===== src/Teardown/Frees.antt =====
-- The drop of a `WorkerGuard` frees every task that nobody else holds.
use yaay_rs.Base.{
  ℕ, ◌+◌, ◌<◌, ◌≡◌, ◌≢◌, refl, sym, ap, ◌∙◌, Option-cases, inl, inr, true, false, List, [], ◌∷◌,
  Option, none, some, length, arith, ℕ_discrete,
}
use yaay_rs.Task.Status.{Status}
use yaay_rs.Task.Heap.{Ptr, null, Heap, Task, Cmd}
use yaay_rs.TaskList.Defs.{TaskList, drain, new}
use yaay_rs.TaskList.Chain.{member, Absent, write-other}
use yaay_rs.TaskList.Kept.{Kept}
use yaay_rs.TaskList.Drain.{each, drain-each}
use yaay_rs.Shared.State.{Runtime}
use yaay_rs.Shared.View.{Contents, View}
use yaay_rs.Teardown.{rc, rc_dec, release, collect, teardown}
use yaay_rs.Teardown.Counts.{minus, Sound, hit, count, Lost, rc_of-minus, Lost-Sound, live_at}
use yaay_rs.TaskList.Alike.{rc_of, forget, Alike, Alike-rc_of, Alike-some, Alike-none}
use yaay_rs.Teardown.Collect.{concat, collect-Alike}
use yaay_rs.Teardown.Release.{marked, marked_rc, marked-Sound, release-Lost}

-- The wakers of task `a` that the futures of `xs` hold, and the references of the queue
abbrev pub refs : (Ptr → List Ptr) → Ptr → List Ptr → ℕ
refs owned a [] = 0
refs owned a (x ∷ xs) = (hit a x + count a (owned x)) + refs owned a xs

-- The books are balanced: `xs` is left of the queues, none of its tasks has been dropped, and the
-- references to each task are those of the queue, of the futures of `xs`, and `out` of others.
pub record Balanced (owned : Ptr → List Ptr) (out : Ptr → ℕ) (h : Heap) (xs : List Ptr)
    : Type 0 where
  pub sound : Sound h
  pub undropped :
      (x : Ptr) (t : Task) → member x xs ≡ true → h x ≡ some t → t.status.dropped ≡ false
  pub balance : (a : Ptr) → rc_of (h a) ≡ refs owned a xs + out a

pub refs-member :
    (owned : Ptr → List Ptr) (a : Ptr) (xs : List Ptr) → member a xs ≡ true → 0 < refs owned a xs
refs-member owned a [] m = absurd (ground arith)
refs-member owned a (x ∷ xs) m = elim (ℕ_discrete a x) [
  | yes e ↦ let own : hit a x ≡ 1 = ground arith in omega (arith, own)
  | no ne ↦ let m' : member a xs ≡ true = ground arith in omega (arith, refs-member owned a xs m')
]

same_next : {t u : Task} → ◌≡◌ {A = Option Task} (some t) (some u) → t.next ≡ u.next
same_next e = ground arith

minus-some :
    (k : ℕ) (o : Option Task) (u : Task)
    → minus k o ≡ some u
    → (t : Task) × (o ≡ some t) × (u.next ≡ t.next) × (u.status ≡ t.status)
minus-some k none u e = absurd (ground arith)
minus-some k (some t) u e = (t, refl, ground arith, ground arith)

module _ (owned : Ptr → List Ptr) (out : Ptr → ℕ) (h g : Heap) (x : Ptr) (xs : List Ptr) (t : Task)
    (apart : Absent x xs) (at : h x ≡ some t) (b : Balanced owned out h (x ∷ xs))
    (lost : Lost (λ a. hit a x + count a (owned x)) (marked h x t) g) where
  -- A task that is left has kept its `next` and its bits.
  kept_fields :
      (y : Ptr) (u : Task)
      → member y xs ≡ true
      → g y ≡ some u
      → (w : Task) × (h y ≡ some w) × (u.next ≡ w.next) × (u.status ≡ w.status)
  kept_fields y u m at_g =
      let ne : y ≢ x = λ e. ground (arith) in
      let (w, at_w, next, status) = minus-some _ (marked h x t y) u (sym (lost y) ∙ at_g) in
      (w, sym (write-other h x _ y ne) ∙ at_w, next, status)

  step-Balanced : Balanced owned out g xs
  step-Balanced = record {
    sound = Lost-Sound _ (marked h x t) g (marked-Sound h x t b.sound at) lost;
    undropped = λ y u m at_g.
        let (w, at_w, next, status) = kept_fields y u m at_g in
        ap (λ s. s.dropped) status ∙ b.undropped y w (ground arith) at_w;
    balance = λ a. omega (
      arith,
      ap rc_of (lost a),
      rc_of-minus (hit a x + count a (owned x)) (marked h x t a),
      marked_rc h x t at a,
      b.balance a,
    );
  }

  step-Kept : (y : Ptr) → member y xs ≡ true → Kept h g y
  step-Kept y m v =
      let (u, at_u) =
        live_at g y (omega (arith, step-Balanced.balance y, refs-member owned y xs m)) in
      let (w, at_w, next, status) = kept_fields y u m at_u in
      (
        record { ne_null = v.ne_null; here = u; holds = at_u },
        next ∙ same_next (sym at_w ∙ v.holds),
      )

-- One task is released: the books are balanced for the rest.
pub release-Balanced :
    (f : Ptr → Cmd (Unit {0})) (owned : Ptr → List Ptr) (out : Ptr → ℕ)
    → ((x : Ptr) → f x ≡ each rc_dec (owned x))
    → (x : Ptr) (xs : List Ptr) (h : Heap) → Absent x xs
    → Balanced owned out h (x ∷ xs)
    → (g : Heap) × (release f x h ≡ some (tt, g))
      × Balanced owned out g xs
      × ((a : Ptr) → member a xs ≡ true → Kept h g a)
release-Balanced f owned out drops x xs h apart b =
    let own : member x (x ∷ xs) ≡ true = ground arith in
    let (t, at) = live_at h x (omega (arith, b.balance x, refs-member owned x (x ∷ xs) own)) in
    let (g, ran, lost) =
      release-Lost f h x (owned x) t b.sound at (b.undropped x t own at) (drops x)
        (λ a. omega (arith, b.balance a)) in
    (
      g,
      ran,
      step-Balanced owned out h g x xs t apart at b lost,
      step-Kept owned out h g x xs t apart at b lost,
    )

pub Alike-Balanced :
    (owned : Ptr → List Ptr) (out : Ptr → ℕ) (h g : Heap) (xs : List Ptr)
    → Alike h g
    → Balanced owned out h xs
    → Balanced owned out g xs
Alike-Balanced owned out h g xs alike b = record {
  sound = record {
    none_at_null = Alike-none (g null) (alike null ∙ ap forget b.sound.none_at_null);
    counted = λ a t at.
        let (u, at_u, rc, status) = Alike-some (h a) t (ap forget (sym at) ∙ alike a) in
        omega (arith, rc, b.sound.counted a u at_u);
  };
  undropped = λ x t m at.
      let (u, at_u, rc, status) = Alike-some (h x) t (ap forget (sym at) ∙ alike x) in
      ap (λ (s : Status). s.dropped) status ∙ b.undropped x u m at_u;
  balance = λ a. Alike-rc_of (g a) (h a) (alike a) ∙ b.balance a;
}

Sound-none : (g : Heap) (a : Ptr) → Sound g → rc_of (g a) ≡ 0 → g a ≡ none
Sound-none g a sound e = elim (Option-cases (g a)) [
  | inl gone ↦ gone
  | inr (t, at) ↦ absurd (omega (arith, (sound.counted a t at).0, ap rc_of at))
]

teardown-run :
    (f : Ptr → Cmd (Unit {0})) (k : ℕ) (rt : Runtime) (l : TaskList) (h g : Heap)
    → collect rt.queues new rt.heap ≡ some (l, h)
    → drain k l (release f) h ≡ some (tt, g)
    → teardown k f rt ≡ some g
unfolding teardown
teardown-run f k rt l h g collected drained = ground (arith, collected, drained)

-- The drop of a `WorkerGuard` ends without a fault, given fuel for the tasks in the queues, when the
-- count of each task is that of its references: by its queue, by wakers that the futures of the queued
-- tasks hold, and `out` by others, and dropping a future drops its wakers. Of each task exactly the
-- references of others are left, and a task without such references is freed.
pub teardown-frees :
    (rt : Runtime) (c : Contents) (f : Ptr → Cmd (Unit {0})) (owned : Ptr → List Ptr)
    (out : Ptr → ℕ) (k : ℕ)
    → View rt c
    → Balanced owned out rt.heap (concat c)
    → ((x : Ptr) → f x ≡ each rc_dec (owned x))
    → length (concat c) < k
    → (g : Heap) × (teardown k f rt ≡ some g)
      × ((a : Ptr) → (rc_of (g a) ≡ out a) × (out a ≡ 0 → g a ≡ none))
teardown-frees rt c f owned out k v b drops enough =
    let (l, h, collected, is, alike) =
      collect-Alike rt.heap rt.queues c new [] v (refl, refl) (λ j zs at. tt) in
    let (g, drained, _, left) =
      drain-each (λ xs h. Balanced owned out h xs) (release f) k h l (concat c)
        (release-Balanced f owned out drops) (Alike-Balanced owned out rt.heap h (concat c) alike b)
        is enough in
    (
      g,
      teardown-run f k rt l h g collected drained,
      λ a. (
        omega (arith, left.balance a),
        λ free. Sound-none g a left.sound (omega (arith, left.balance a)),
      ),
    )
