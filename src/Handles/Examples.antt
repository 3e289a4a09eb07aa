-- ===== src/Handles/Examples.antt =====
-- Two reactor threads without a source, with a slab whose first keys are 0 and 1.
use yaay_rs.Base.{
  ℕ, ◌+◌, ◌<◌, ◌≤◌, ◌%◌, ◌^◌, ◌≡◌, ◌≢◌, refl, Bool, true, List, [], ◌∷◌, none, some, length, set,
  arith,
}
use yaay_rs.Task.Heap.{null}
use yaay_rs.Registry.{Slab, remove}
use yaay_rs.Handles.{
  Interest, readable, writable, readable_or_writable, LocalData, GlobalData, MioCell,
}
use yaay_rs.Handles.Lifecycle.{stream_life, stream_life-reclaimed}
use yaay_rs.Handles.RoundRobin.{count, new_all, new_all-balanced}

abbrev first_key : Slab → ℕ
first_key slab = elim (slab 0) [ none ↦ 0 | some s ↦ 1 ]

abbrev accepts : LocalData → ℕ → Interest → Bool
accepts l k ready = true

abbrev local : LocalData
local = record { registered = λ k. none; dispatchers = λ k. none; deferred_remove = [] }

abbrev global : GlobalData
global = record { locals = local ∷ local ∷ []; counter = 0 }

abbrev readies : List Interest
readies = readable ∷ readable_or_writable ∷ writable ∷ []

nine-ne_null : 9 ≢ null
nine-ne_null = omega arith

stream_life-reclaimed_example :
    (l' : LocalData) × (slab : Slab) × (stream_life first_key accepts 8 9 global
      ≡ some (record global {
        locals = set global.locals (global.counter % length global.locals) l';
        counter = (global.counter + 1) % 2 ^ 64;
      }))
    × (l'.deferred_remove ≡ first_key local.dispatchers ∷ local.deferred_remove)
    × ((k : ℕ) → l'.registered k ≡ local.registered k)
    × (remove (first_key local.dispatchers) l'.dispatchers ≡ some slab)
    × ((k : ℕ) → slab k ≡ local.dispatchers k)
stream_life-reclaimed_example =
    stream_life-reclaimed first_key accepts global local 8 9 refl refl refl (λ l k. refl)
      nine-ne_null

new_all-balanced_example :
    (cells : List MioCell) × (g' : GlobalData) × (new_all first_key accepts readies global
      ≡ some (cells, g'))
    × (length cells ≡ length readies)
    × ((i j : ℕ)
        → i < length global.locals
        → j < length global.locals
        → count i cells ≤ count j cells + 1)
new_all-balanced_example =
    new_all-balanced first_key accepts readies global refl (omega arith) (omega arith)
      (λ l k ready. refl)
