-- ===== src/Io.antt =====
-- The loop of `io_poll` (yaay-mio/src/macros.rs) and the calls that it makes up
-- (yaay-mio/src/net/tcp_stream.rs, yaay-mio/src/net/tcp_listener.rs). The I/O calls of std and mio are
-- arguments, as is what happens while a task waits.
pub mod Net
pub mod Laws
pub mod Examples
use yaay_rs.Base.{ℕ, zero, suc, List, [], ◌∷◌, ◌++◌, Option, none, some}

-- `std::io::Error`, by its kind
pub data IoError : Type 0 where
  would_block : IoError
  other : (code : ℕ) → IoError

pub data IoResult (A : Type 0) : Type 0 where
  ok : A → IoResult A
  err : IoError → IoResult A

-- What the loop does, in order.
pub data Call : Type 0 where
  prepare_io attempt wait_io : Call

-- The outcome of a loop: its result, the state, and its calls.
pub record Outcome (S B : Type 0) : Type 0 where
  pub result : IoResult B
  pub state : S
  pub calls : List Call

-- The calls of a round come before those of the rounds after it.
abbrev pub after : {S B : Type 0} → List Call → Option (Outcome S B) → Option (Outcome S B)
after cs none = none
after cs (some o) = some (record o { calls = cs ++ o.calls })

-- `wait` is what others do to the state until `wait_io` returns. With no fuel left the loop has not
-- ended.
module _ {S A B : Type 0} (io : S → IoResult A × S) (wait : S → S) (map : A → S → B × S) where
  -- The `match` on one attempt, and the rounds after it
  abbrev pub on_attempt : (S → Option (Outcome S B)) → IoResult A × S → Option (Outcome S B)
  on_attempt rest (ok a, s) =
      let (b, s') = map a s in
      some (record { result = ok b; state = s'; calls = prepare_io ∷ attempt ∷ [] })
  on_attempt rest (err would_block, s) = after (prepare_io ∷ attempt ∷ wait_io ∷ []) (rest (wait s))
  on_attempt rest (err (other code), s) =
      some (record { result = err (other code); state = s; calls = prepare_io ∷ attempt ∷ [] })

  -- `io_poll!(dispatcher, io, map)`
  unfoldable pub io_poll_map : ℕ → S → Option (Outcome S B)
  io_poll_map zero s = none
  io_poll_map (suc fuel) s = on_attempt (io_poll_map fuel) (io s)

-- `io_poll!(dispatcher, io)`
unfoldable pub io_poll :
    {S A : Type 0} → (S → IoResult A × S) → (S → S) → ℕ → S → Option (Outcome S A)
unfolding io_poll_map
io_poll io wait fuel s = io_poll_map io wait (λ a s. (a, s)) fuel s
