-- ===== src/Handles/RoundRobin.antt =====
-- The sources are spread evenly over the reactor threads.
use yaay_rs.Base.{
  ℕ, zero, suc, ◌+◌, ◌<◌, ◌≤◌, ◌%◌, ◌^◌, ◌==◌, ◌≡◌, ◌∙◌, refl, sym, ap, Bool, true, List, [], ◌∷◌,
  Option, some, bind, length, length-set, get_elem?-of_lt, arith, if◌then◌else◌, ltb, ℕ_discrete,
}
use native.Mathlib.Nat.{mod-lt, mod-eq_of_lt, mod-add-mod, mod_self}
use yaay_rs.Task.Heap.{null}
use yaay_rs.Registry.{Slab, slot, store}
use yaay_rs.Handles.{Interest, LocalData, GlobalData, MioCell, store_interest, new_handle}
use yaay_rs.Handles.Calls.{holding, new_handle-run}

-- How many of the cells are on thread `i`.
abbrev pub count : ℕ → List MioCell → ℕ
count i [] = 0
count i (cell ∷ cells) = (if cell.local_i == i then 1 else 0) + count i cells

-- How often, of `c` turns, it is the turn of thread `i` of `n`.
unfoldable turns : ℕ → ℕ → ℕ → ℕ
turns n i zero = 0
turns n i (suc c) = turns n i c + (if c % n == i then 1 else 0)

next_turn : (n c : ℕ) → 0 < n → (suc c) % n ≡ (if c % n + 1 == n then 0 else c % n + 1)
next_turn n c pos =
    let e : (c % n + 1) % n ≡ (suc c) % n = mod-add-mod c n 1 ∙ ap (λ m. m % n) (omega arith) in
    elim (ℕ_discrete (c % n + 1) n) [
      | yes last ↦
          let whole : (c % n + 1) % n ≡ 0 = ap (λ m. m % n) last ∙ mod_self n in
          ground (arith, sym e ∙ whole, last)
      | no ne ↦
          let small : (c % n + 1) % n ≡ c % n + 1 =
            mod-eq_of_lt (omega (arith, ne, mod-lt c pos)) in
          ground (arith, sym e ∙ small, ne)
    ]

-- Every thread has had `q` turns, or one more if it comes before the one whose turn it is.
turns-even :
    (n c : ℕ)
    → 0 < n
    → (q : ℕ) × ((i : ℕ) → i < n → turns n i c ≡ q + (if ltb i (c % n) then 1 else 0))
unfolding turns
turns-even n zero pos = (0, λ i lt. let e : zero % n ≡ 0 = mod-eq_of_lt pos in ground (arith, e))
turns-even n (suc c) pos =
    let (q, even) = turns-even n c pos in
    let next = next_turn n c pos in
    elim (ℕ_discrete (c % n + 1) n) [
      | yes last ↦ (q + 1, λ i lt. ground (arith, even i lt, next, last))
      | no ne ↦ (q, λ i lt. ground (arith, even i lt, next, ne))
    ]

turns_even_by_one : (n c i j : ℕ) → i < n → j < n → turns n i c ≤ turns n j c + 1
turns_even_by_one n c i j lt_i lt_j =
    let (q, even) = turns-even n c (omega (arith, lt_i)) in grind (arith, even i lt_i, even j lt_j)

module _ (vacant : Slab → ℕ) (registers : LocalData → ℕ → Interest → Bool) where
  -- Sources opened one after the other, each with its handle or handles.
  abbrev pub new_all : List Interest → GlobalData → Option (List MioCell × GlobalData)
  new_all [] g = some ([], g)
  new_all (ready ∷ readies) g =
      bind (new_handle vacant registers ready g)
        λ (cell, g1). bind (new_all readies g1) λ (cells, g2). some (cell ∷ cells, g2)

  -- The cells that are made from the turn `c` on.
  record Made (n c : ℕ) (readies : List Interest) (g : GlobalData) : Type 0 where
    cells : List MioCell
    after : GlobalData
    ran : new_all readies g ≡ some (cells, after)
    sized : length cells ≡ length readies
    counted : (i : ℕ) → count i cells + turns n i c ≡ turns n i (c + length readies)

  new_all-Made :
      (n : ℕ) (readies : List Interest) (g : GlobalData)
      → 0 < n
      → length g.locals ≡ n
      → g.counter + length readies < 2 ^ 64
      → ((l : LocalData) (k : ℕ) (ready : Interest) → registers l k ready ≡ true)
      → Made n g.counter readies g
  unfolding turns
  new_all-Made n [] g pos e small may = record {
    cells = [];
    after = g;
    ran = refl;
    sized = refl;
    counted =
        λ i. let e : g.counter ≡ g.counter + 0 = omega arith in omega (arith, ap (turns n i) e);
  }
  new_all-Made n (ready ∷ readies) g pos e small may =
      let i : ℕ = g.counter % length g.locals in
      let lt : i < length g.locals = mod-lt g.counter (omega (arith, pos, e)) in
      let (l, at) = get_elem?-of_lt g.locals i lt in
      let ran1 = new_handle-run vacant registers ready g i l refl at (λ l' k. may l' k ready) in
      let cell : MioCell = record { local_i = i; key = vacant l.dispatchers } in
      let l' : LocalData = record l {
        dispatchers = store l.dispatchers cell.key (some (slot null null));
        registered = store_interest l.registered cell.key (some ready);
      } in
      let g1 : GlobalData = holding (record g { counter = (g.counter + 1) % 2 ^ 64 }) i l' in
      let count1 : g1.counter ≡ suc g.counter = omega (arith, small) in
      let made =
        new_all-Made n readies g1 pos (length-set g.locals i l' ∙ e) (omega (arith, small, count1))
          may in
      record {
        cells = cell ∷ made.cells;
        after = made.after;
        ran = rw (ran1, made.ran) refl;
        sized = ap suc made.sized;
        counted = λ j.
            let same : turns n j g1.counter ≡ turns n j (suc g.counter) = ap (turns n j) count1 in
            let last : turns n j (g1.counter + length readies)
                ≡ turns n j (g.counter + suc (length readies)) =
              ap (turns n j) (omega (arith, count1)) in
            let here : i ≡ g.counter % n = ap (λ m. g.counter % m) e in
            grind (arith, made.counted j, same, last, here);
      }

  -- Since the start of the program, whatever the sources are opened for, the numbers of sources (of
  -- `MIOCell`s; the two handles of `new_rw` share one) of two reactor threads differ by one at most, as
  -- long as there are fewer than 2 ^ 64 of them. It is assumed that mio accepts every registration.
  pub new_all-balanced :
      (readies : List Interest) (g : GlobalData)
      → g.counter ≡ 0
      → 0 < length g.locals
      → length readies < 2 ^ 64
      → ((l : LocalData) (k : ℕ) (ready : Interest) → registers l k ready ≡ true)
      → (cells : List MioCell) × (g' : GlobalData) × (new_all readies g ≡ some (cells, g'))
        × (length cells ≡ length readies)
        × ((i j : ℕ)
            → i < length g.locals
            → j < length g.locals
            → count i cells ≤ count j cells + 1)
  unfolding turns
  new_all-balanced readies g start pos small may =
      let n : ℕ = length g.locals in
      let made = new_all-Made n readies g pos refl (omega (arith, start, small)) may in
      (
        made.cells,
        made.after,
        made.ran,
        made.sized,
        λ i j lt_i lt_j.
            let none_i : turns n i g.counter ≡ 0 = ap (turns n i) start in
            let none_j : turns n j g.counter ≡ 0 = ap (turns n j) start in
            omega (
              arith,
              made.counted i,
              made.counted j,
              none_i,
              none_j,
              turns_even_by_one n (g.counter + length readies) i j lt_i lt_j,
            ),
      )
