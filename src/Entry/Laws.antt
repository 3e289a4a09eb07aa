-- ===== src/Entry/Laws.antt =====
-- What the entry points do to the queues.
use yaay_rs.Base.{ℕ, ◌+◌, List, [], ◌∷◌}
use yaay_rs.Task.Heap.{Ptr}
use yaay_rs.Shared.View.{Contents, View}

-- Each worker from `i` on has its task in front.
abbrev pub fronts : (ℕ → Ptr) → ℕ → Contents → Contents
fronts fresh i [] = []
fronts fresh i (xs ∷ c) = (fresh i ∷ xs) ∷ fronts fresh (i + 1) c
