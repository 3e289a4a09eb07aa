-- ===== src/PingPong.antt =====
-- The program yaay-tests/src/mio_ping_pong.rs: tasks that send a byte to and fro, in pairs over
-- connections, until the last of them ends the program. tokio_ping_pong.rs is the same on tokio.
-- `read_exact` of one byte is a step when the byte is there, and `write_all` of one byte at any time; a
-- `connect` succeeds, and any connection that is made can be accepted.
pub mod Pairs
pub mod Keeps
pub mod Ends
pub mod Examples
use yaay_rs.Base.{
  ℕ, zero, suc, ◌+◌, ◌-◌, ◌%◌, ◌^◌, ◌≡◌, ◌==◌, Bool, true, false, List, some, get_elem?, set,
  length, fill,
}

-- Where `ping` stands; before it is spawned, its connection is not accepted.
pub data Ping : Type 0 where
  unaccepted : Ping
  sending : (left : ℕ) → Ping  -- before a round, with `left` rounds to go
  receiving : (left : ℕ) → Ping  -- in a round, with `left` rounds after it
  counting : Ping  -- before `COUNT.fetch_add`
  done : Ping

-- Where `pong` stands
pub data Pong : Type 0 where
  unspawned : Pong
  connecting : Pong
  awaiting : (left : ℕ) → Pong
  answering : (left : ℕ) → Pong
  blocked : Pong  -- in `Block().await`

-- The two ends of one connection, with the bytes on their way
pub record Pair : Type 0 where
  pub ping : Ping
  pub pong : Pong
  pub there : ℕ
  pub back : ℕ

-- Where `ping_pong_async_main` stands
pub data Main : Type 0 where
  spawning : (left : ℕ) → Main
  accepting : (left : ℕ) → Main
  resting : Main  -- in `Block().await`

pub record Game : Type 0 where
  pub pairs : List Pair
  pub main : Main
  pub count : ℕ  -- COUNT, an AtomicU32
  pub exited : Bool

abbrev pub connected : Pong → Bool
connected unspawned = false
connected connecting = false
connected _ = true

-- The steps of `ping` and `pong` on their connection
pub data PairStep (rounds : ℕ) (p : Pair) : Pair → Type 0 where
  connect : p.pong ≡ connecting → PairStep rounds p (record p { pong = awaiting rounds })
  send :
      {k : ℕ}
      → p.ping ≡ sending (suc k)
      → PairStep rounds p (record p { ping = receiving k; there = p.there + 1 })
  receive :
      {k b : ℕ}
      → p.ping ≡ receiving k
      → p.back ≡ suc b
      → PairStep rounds p (record p { ping = sending k; back = b })
  stop : p.ping ≡ sending 0 → PairStep rounds p (record p { ping = counting })
  take :
      {k a : ℕ}
      → p.pong ≡ awaiting (suc k)
      → p.there ≡ suc a
      → PairStep rounds p (record p { pong = answering k; there = a })
  answer :
      {k : ℕ}
      → p.pong ≡ answering k
      → PairStep rounds p (record p { pong = awaiting k; back = p.back + 1 })
  block : p.pong ≡ awaiting 0 → PairStep rounds p (record p { pong = blocked })

abbrev pub put : Game → ℕ → Pair → Game
put s i q = record s { pairs = set s.pairs i q }

abbrev pub At : Game → ℕ → Pair → Type 0
At s i p = get_elem? s.pairs i ≡ some p

-- `n` is N.
pub data GameStep (n rounds : ℕ) (s : Game) : Game → Type 0 where
  spawn :
      (i : ℕ) {k : ℕ} {p : Pair}
      → s.exited ≡ false
      → s.main ≡ spawning (suc k)
      → At s i p
      → p.pong ≡ unspawned
      → GameStep n rounds s
          (record (put s i (record p { pong = connecting })) { main = spawning k })
  listen :
      s.exited ≡ false → s.main ≡ spawning 0 → GameStep n rounds s (record s { main = accepting n })
  accept :
      (i : ℕ) {k : ℕ} {p : Pair}
      → s.exited ≡ false
      → s.main ≡ accepting (suc k)
      → At s i p
      → p.ping ≡ unaccepted
      → connected p.pong ≡ true
      → GameStep n rounds s
          (record (put s i (record p { ping = sending rounds })) { main = accepting k })
  rest : s.exited ≡ false → s.main ≡ accepting 0 → GameStep n rounds s (record s { main = resting })
  play :
      (i : ℕ) {p q : Pair}
      → s.exited ≡ false
      → At s i p
      → PairStep rounds p q
      → GameStep n rounds s (put s i q)
  -- `if COUNT.fetch_add(1, SeqCst) == N - 1 { exit(0); }`
  count_up :
      (i : ℕ) {p : Pair}
      → s.exited ≡ false
      → At s i p
      → p.ping ≡ counting
      → GameStep n rounds s (record (put s i (record p { ping = done })) {
        count = (s.count + 1) % 2 ^ 32;
        exited = s.count == n - 1;
      })

abbrev pub new_pair : Pair
new_pair = record { ping = unaccepted; pong = unspawned; there = 0; back = 0 }

-- The program has 1000 pairs and 10000 rounds.
abbrev pub init_game : ℕ → Game
init_game n = record { pairs = fill new_pair n; main = spawning n; count = 0; exited = false }

pub data GameReach (n rounds : ℕ) : Game → Type 0 where
  start : GameReach n rounds (init_game n)
  later : {s t : Game} → GameReach n rounds s → GameStep n rounds s t → GameReach n rounds t
