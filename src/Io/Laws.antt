-- ===== src/Io/Laws.antt =====
-- What `io_poll` returns, and what it repeats.
use yaay_rs.Base.{
  ℕ, zero, suc, ◌≤◌, ◌<◌, ◌≡◌, ◌≢◌, refl, List, [], ◌∷◌, ◌++◌, Option, none, some, arith, ap, ◌∙◌,
  length, take, length-take, length-append, sym,
}
use yaay_rs.Io.{
  would_block, other, IoResult, ok, err, Call, prepare_io, attempt, wait_io, Outcome, after,
  on_attempt, io_poll_map, io_poll,
}
use yaay_rs.Io.Net.{write_all}

module _ {S A B : Type 0} (io : S → IoResult A × S) (wait : S → S) (map : A → S → B × S) where
  -- The state before the attempt that follows `k` waits.
  abbrev pub before : ℕ → S → S
  before zero s = s
  before (suc k) s = before k (wait (io s).1)

  -- The attempts up to the `k`-th would block, and that one does not.
  abbrev pub Blocks : ℕ → S → Type 0
  Blocks zero s = (io s).0 ≢ err would_block
  Blocks (suc k) s = ((io s).0 ≡ err would_block) × Blocks k (wait (io s).1)

  -- The calls of a loop that waits `k` times: each attempt is prepared, and each wait is after one.
  abbrev pub rounds : ℕ → List Call
  rounds zero = prepare_io ∷ attempt ∷ []
  rounds (suc k) = (prepare_io ∷ attempt ∷ wait_io ∷ []) ++ rounds k

  -- The result and the state that the last attempt leads to.
  abbrev pub finish : IoResult A × S → IoResult B × S
  finish (ok a, s) = let (b, s') = map a s in (ok b, s')
  finish (err e, s) = (err e, s)

  abbrev pub Finishes : ℕ → ℕ → S → Option (Outcome S B) → Type 0
  Finishes k fuel s o =
      o
      ≡ some (record {
        result = (finish (io (before k s))).0;
        state = (finish (io (before k s))).1;
        calls = rounds k;
      })

  on_attempt-last :
      (rest : S → Option (Outcome S B)) (x : IoResult A × S)
      → x.0 ≢ err would_block
      → on_attempt io wait map rest x
        ≡ some (record { result = (finish x).0; state = (finish x).1; calls = rounds 0 })
  on_attempt-last rest (ok a, s) ne = refl
  on_attempt-last rest (err would_block, s) ne = absurd (ne refl)
  on_attempt-last rest (err (other code), s) ne = refl

  on_attempt-blocked :
      (rest : S → Option (Outcome S B)) (x : IoResult A × S)
      → x.0 ≡ err would_block
      → on_attempt io wait map rest x
        ≡ after (prepare_io ∷ attempt ∷ wait_io ∷ []) (rest (wait x.1))
  on_attempt-blocked rest (ok a, s) e = cc
  on_attempt-blocked rest (err would_block, s) e = refl
  on_attempt-blocked rest (err (other code), s) e = cc

  -- When the attempt after `k` waits is the first that does not block, the loop ends, given more fuel
  -- than `k`, in the result and the state of that attempt; every attempt is prepared just before it,
  -- and the loop has waited `k` times, each time after an attempt that blocked.
  pub io_poll_map-Finishes :
      (k fuel : ℕ) (s : S)
      → Blocks k s
      → k < fuel
      → Finishes k fuel s (io_poll_map io wait map fuel s)
  unfolding io_poll_map
  io_poll_map-Finishes k zero s blocks lt = absurd (omega arith)
  io_poll_map-Finishes zero (suc fuel) s blocks lt =
      on_attempt-last (io_poll_map io wait map fuel) (io s) blocks
  io_poll_map-Finishes (suc k) (suc fuel) s blocks lt =
      on_attempt-blocked (io_poll_map io wait map fuel) (io s) blocks.0
      ∙ ap (after (prepare_io ∷ attempt ∷ wait_io ∷ []))
          (io_poll_map-Finishes k fuel (wait (io s).1) blocks.1 (omega arith))

  after-ne_would_block :
      (cs : List Call) (m : Option (Outcome S B)) (o : Outcome S B)
      → ((o : Outcome S B) → m ≡ some o → o.result ≢ err would_block)
      → after cs m ≡ some o
      → o.result ≢ err would_block
  after-ne_would_block cs none o ih e = cc
  after-ne_would_block cs (some p) o ih e =
      let same : p.result ≡ o.result = cc in λ bad. ih p refl (same ∙ bad)

  on_attempt-ne_would_block :
      (rest : S → Option (Outcome S B)) (x : IoResult A × S) (o : Outcome S B)
      → ((s : S) (o : Outcome S B) → rest s ≡ some o → o.result ≢ err would_block)
      → on_attempt io wait map rest x ≡ some o
      → o.result ≢ err would_block
  on_attempt-ne_would_block rest (ok a, s) o ih e = λ bad. cc
  on_attempt-ne_would_block rest (err would_block, s) o ih e =
      after-ne_would_block (prepare_io ∷ attempt ∷ wait_io ∷ []) (rest (wait s)) o (ih (wait s)) e
  on_attempt-ne_would_block rest (err (other code), s) o ih e = λ bad. cc

  -- Whatever the attempts do, the loop never returns the error that it waits on.
  pub io_poll_map-ne_would_block :
      (fuel : ℕ) (s : S) (o : Outcome S B)
      → io_poll_map io wait map fuel s ≡ some o
      → o.result ≢ err would_block
  unfolding io_poll_map
  io_poll_map-ne_would_block zero s o e = cc
  io_poll_map-ne_would_block (suc fuel) s o e =
      on_attempt-ne_would_block (io_poll_map io wait map fuel) (io s) o
        (io_poll_map-ne_would_block fuel) e

ok_ne_would_block : {A : Type 0} {r : IoResult A} {a : A} → r ≡ ok a → r ≢ err would_block
ok_ne_would_block e bad = cc

finish_same :
    {S : Type 0} (io : S → IoResult (Unit {0}) × S) (wait : S → S) (x : IoResult (Unit {0}) × S)
    → x.0 ≡ ok tt
    → ((finish io wait (λ a s. (a, s)) x).0 ≡ ok tt) × ((finish io wait (λ a s. (a, s)) x).1 ≡ x.1)
finish_same io wait (ok a, s) e = (e, refl)
finish_same io wait (err e', s) e = (e, refl)

twice-ne : (xs ys zs : List ℕ) → 0 < length ys → (xs ++ ys) ++ zs ≢ xs ++ zs
twice-ne xs ys zs pos e = absurd (
    omega
      (arith, ap length e, length-append (xs ++ ys) zs, length-append xs ys, length-append xs zs))

-- The stream's peer gets the start of the buffer twice, when a call of `write_all` of std sends `k` bytes
-- before it blocks, and the call that `io_poll` makes after the wait sends all.
pub write_all-repeats :
    {S : Type 0} (sent : S → List ℕ) (sys_write_all : List ℕ → S → IoResult (Unit {0}) × S)
    (wait : S → S) (buf : List ℕ) (k : ℕ) (s : S)
    → 0 < k
    → k ≤ length buf
    → (sys_write_all buf s).0 ≡ err would_block
    → sent (wait (sys_write_all buf s).1) ≡ sent s ++ take k buf
    → (sys_write_all buf (wait (sys_write_all buf s).1)).0 ≡ ok tt
    → sent (sys_write_all buf (wait (sys_write_all buf s).1)).1
      ≡ sent (wait (sys_write_all buf s).1) ++ buf
    → (o : Outcome S (Unit {0})) × (write_all wait 2 sys_write_all buf s ≡ some o)
      × (o.result ≡ ok tt)
      × (sent o.state ≡ (sent s ++ take k buf) ++ buf)
      × (sent o.state ≢ sent s ++ buf)
unfolding write_all io_poll
write_all-repeats sent sys wait buf k s pos le blocked part done rest =
    let s' = wait (sys buf s).1 in
    let last = sys buf s' in
    let sent_all =
      ap sent (finish_same (sys buf) wait last done).1 ∙ (rest ∙ ap (λ xs. xs ++ buf) part) in
    let length_pos : 0 < length (take k buf) = omega (arith, length-take k buf le) in
    let ended = finish_same (sys buf) wait last done in
    (
      record {
        result = (finish (sys buf) wait (λ a s. (a, s)) last).0;
        state = (finish (sys buf) wait (λ a s. (a, s)) last).1;
        calls = rounds (sys buf) wait (λ a s. (a, s)) 1;
      },
      io_poll_map-Finishes (sys buf) wait (λ a s. (a, s)) 1 2 s (blocked, ok_ne_would_block done)
          (omega arith),
      ended.0,
      sent_all,
      λ bad. twice-ne (sent s) (take k buf) buf (length_pos) (sym sent_all ∙ bad),
    )
