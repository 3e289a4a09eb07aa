-- ===== src/Entry/Examples.antt =====
-- `shutdown_async` of the two workers of Worker/Examples, with tasks at 10 and 11.
use yaay_rs.Base.{ℕ, ◌+◌}
use yaay_rs.Task.Heap.{Ptr}
use yaay_rs.Shared.View.{View}

abbrev fresh : ℕ → Ptr
fresh j = 10 + j
