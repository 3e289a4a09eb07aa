-- ===== src/Base/Options.antt =====
-- A chain of calls that may fail.
use mathlib.Core.Option.{Option, none, some}

abbrev pub bind : {A B : Type 0} → Option A → (A → Option B) → Option B
bind none k = none
bind (some a) k = k a
