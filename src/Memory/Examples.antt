-- ===== src/Memory/Examples.antt =====
-- One value in an empty memory.
use yaay_rs.Base.{ℕ, [], none}
use yaay_rs.Memory.{Memory}

abbrev empty : Memory ℕ
empty = record { cells = λ a. none; dropped = [] }
