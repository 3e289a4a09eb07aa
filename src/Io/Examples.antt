-- ===== src/Io/Examples.antt =====
-- A socket that takes as many bytes as it has room for, and the theorems there.
use yaay_rs.Base.{ℕ, zero, suc, ◌≡◌, ◌≢◌, refl, List, [], ◌∷◌, ◌++◌, some, take, arith}
use yaay_rs.Io.{IoResult, ok, err, would_block, other, Outcome, io_poll_map}
use yaay_rs.Io.Net.{write_all}
use yaay_rs.Io.Laws.{Finishes, io_poll_map-Finishes, write_all-repeats}

record Socket : Type 0 where
  sent : List ℕ
  room : ℕ

-- `write_all` as std documents it: `write`, until all is sent or an error comes.
abbrev send_all : List ℕ → ℕ → List ℕ → IoResult (Unit {0}) × Socket
send_all [] room sent = (ok tt, record { sent = sent; room = room })
send_all (x ∷ xs) zero sent = (err would_block, record { sent = sent; room = 0 })
send_all (x ∷ xs) (suc room) sent = send_all xs room (sent ++ x ∷ [])

abbrev sys_write_all : List ℕ → Socket → IoResult (Unit {0}) × Socket
sys_write_all buf s = send_all buf s.room s.sent

-- While the task waits the socket gets room for eight bytes.
abbrev drain_socket : Socket → Socket
drain_socket s = record s { room = 8 }

abbrev narrow : Socket
narrow = record { sent = []; room = 2 }

write_all-repeats_example :
    (o : Outcome Socket (Unit {0})) × (write_all drain_socket 2 sys_write_all
        (5 ∷ 6 ∷ 7 ∷ [])
        narrow
      ≡ some o)
    × (o.result ≡ ok tt)
    × (o.state.sent ≡ (narrow.sent ++ take 2 (5 ∷ 6 ∷ 7 ∷ [])) ++ 5 ∷ 6 ∷ 7 ∷ [])
    × (o.state.sent ≢ narrow.sent ++ 5 ∷ 6 ∷ 7 ∷ [])
write_all-repeats_example =
    write_all-repeats (λ (s : Socket). s.sent) sys_write_all drain_socket (5 ∷ 6 ∷ 7 ∷ []) 2 narrow
      (omega arith) (omega arith) refl refl refl refl

ok-ne_would_block : ok tt ≢ err would_block
ok-ne_would_block e = cc

abbrev triple : Unit {0} → Socket → ℕ × Socket
triple _ s = (3, s)

io_poll_map-Finishes_example :
    Finishes
      (sys_write_all (5 ∷ 6 ∷ 7 ∷ []))
      drain_socket
      triple
      1
      2
      narrow
      (io_poll_map (sys_write_all (5 ∷ 6 ∷ 7 ∷ [])) drain_socket triple 2 narrow)
io_poll_map-Finishes_example =
    io_poll_map-Finishes (sys_write_all (5 ∷ 6 ∷ 7 ∷ [])) drain_socket triple 1 2 narrow
      (refl, ok-ne_would_block) (omega arith)

abbrev refused : Socket → IoResult (Unit {0}) × Socket
refused s = (err (other 111), s)
