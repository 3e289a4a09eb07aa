-- ===== src/Reactors/Invariant.antt =====
-- What every interleaving of the reactor threads and the thread that builds them keeps.
use yaay_rs.Base.{
  ℕ, ◌+◌, ◌<◌, ◌≡◌, refl, sym, ap, ◌∙◌, Bool, true, false, ◌==◌, List, [], ◌∷◌, map, some,
  get_elem?, set, length, total, total-set, length-set, length-fill, total-fill, map-fill, map-set,
  map-set_same, map-map_same, get_elem?-mapped, arith,
}
use yaay_rs.Startup.{all_true}
use yaay_rs.Reactors.{
  Thread, starting, checking, sleeping, notifying, running, Main, waiting, made, Boot, after_check,
  look, wake_thread, BootStep, init_boot, BootReach, begin, later,
}

-- Its pointer is still null.
abbrev pub starts : Thread → ℕ
starts starting = 1
starts _ = 0

abbrev pub sleeps : Thread → ℕ
sleeps sleeping = 1
sleeps _ = 0

-- About to call `notify_all`.
abbrev pub alerts : Thread → ℕ
alerts notifying = 1
alerts _ = 0

-- It has seen that all pointers are stored.
abbrev pub pasts : Thread → ℕ
pasts notifying = 1
pasts running = 1
pasts _ = 0

abbrev pub main_sleeps : Main → ℕ
main_sleeps waiting = 1
main_sleeps _ = 0

abbrev pub main_past : Main → ℕ
main_past made = 1
main_past _ = 0

abbrev pub is_stored : Thread → Bool
is_stored starting = false
is_stored _ = true

pub record Inv (n : ℕ) (s : Boot) : Type 0 where
  pub sized : length s.threads ≡ n
  pub slots : s.ptrs ≡ map is_stored s.threads
  pub asleep :
      total starts s.threads ≡ 0
      → 0 < total sleeps s.threads + main_sleeps s.main
      → 0 < total alerts s.threads
  pub all_stored : 0 < total pasts s.threads + main_past s.main → total starts s.threads ≡ 0

-- The sums before and after a thread goes from `p` to `q`.
record Sums (ts us : List Thread) (p q : Thread) : Type 0 where
  start : total starts us + starts p ≡ total starts ts + starts q
  sleep : total sleeps us + sleeps p ≡ total sleeps ts + sleeps q
  alert : total alerts us + alerts p ≡ total alerts ts + alerts q
  past : total pasts us + pasts p ≡ total pasts ts + pasts q
  size : length us ≡ length ts

set-Sums :
    (ts : List Thread) (i : ℕ) (p q : Thread) → get_elem? ts i ≡ some p → Sums ts (set ts i q) p q
set-Sums ts i p q at = record {
  start = total-set starts ts i p q at;
  sleep = total-set sleeps ts i p q at;
  alert = total-set alerts ts i p q at;
  past = total-set pasts ts i p q at;
  size = length-set ts i q;
}

pub all_true-stored : (ts : List Thread) → all_true (map is_stored ts) ≡ (total starts ts == 0)
unfolding total
all_true-stored [] = refl
all_true-stored (starting ∷ ts) = ground arith
all_true-stored (t ∷ ts) = ground (arith, all_true-stored ts)

-- What `notify_all` leaves: no thread sleeps, and the other sums stay.
record Woken (ts us : List Thread) : Type 0 where
  start : total starts us ≡ total starts ts
  sleep : total sleeps us ≡ 0
  past : total pasts us ≡ total pasts ts
  size : length us ≡ length ts

wake_thread-Woken : (ts : List Thread) → Woken ts (map wake_thread ts)
unfolding total
wake_thread-Woken [] = ground arith
wake_thread-Woken (t ∷ ts) = ground (arith, wake_thread-Woken ts)

wake_thread-stored : (p : Thread) → is_stored (wake_thread p) ≡ is_stored p
wake_thread-stored p = ground arith

checked-Inv :
    {n : ℕ} {s : Boot} (b : Bool) (p : Thread) (us : List Thread) (ps : List Bool)
    → Inv n s
    → starts (after_check b) ≡ 0
    → pasts p ≡ 0
    → alerts p ≡ 0
    → Sums s.threads us p (after_check b)
    → ps ≡ map is_stored us
    → b ≡ (total starts us == 0)
    → Inv n (record s { ptrs = ps; threads = us })
checked-Inv true p us ps v z0 z1 z2 e slots flag = ground arith
checked-Inv false p us ps v z0 z1 z2 e slots flag = ground arith

main-Inv :
    {n : ℕ} {s : Boot} (b : Bool)
    → Inv n s
    → b ≡ (total starts s.threads == 0)
    → Inv n (record s { main = look b })
main-Inv true v flag = ground arith
main-Inv false v flag = ground arith

after_check-stored : (b : Bool) → is_stored (after_check b) ≡ true
after_check-stored true = refl
after_check-stored false = refl

after_check-starts : (b : Bool) → starts (after_check b) ≡ 0
after_check-starts true = refl
after_check-starts false = refl

-- Every step of every thread keeps the invariant.
Step-Inv : {n : ℕ} {s t : Boot} → BootStep s t → Inv n s → Inv n t
Step-Inv {s} (BootStep.store i at) v =
    let b : Bool = all_true (set s.ptrs i true) in
    let q : Thread = after_check b in
    let slots' : set s.ptrs i true ≡ map is_stored (set s.threads i q) =
      ap (λ ps. set ps i true) v.slots
      ∙ (ap (λ c. set (map is_stored s.threads) i c) (sym (after_check-stored b))
          ∙ sym (map-set is_stored s.threads i q)) in
    checked-Inv b starting _ _ v (after_check-starts b) refl refl
      (set-Sums s.threads i starting q at) slots'
      (ap all_true slots' ∙ all_true-stored (set s.threads i q))
Step-Inv {s} (BootStep.check i at) v =
    let b : Bool = all_true s.ptrs in
    let q : Thread = after_check b in
    let slots' : s.ptrs ≡ map is_stored (set s.threads i q) =
      v.slots
      ∙ sym (map-set_same is_stored s.threads i checking q at (sym (after_check-stored b))) in
    checked-Inv b checking _ _ v (after_check-starts b) refl refl
      (set-Sums s.threads i checking q at) slots'
      (ap all_true slots' ∙ all_true-stored (set s.threads i q))
Step-Inv {s} (BootStep.notify i at) v =
    let woken : get_elem? (map wake_thread s.threads) i ≡ some notifying =
      get_elem?-mapped wake_thread s.threads i notifying at in
    ground (
      arith,
      v,
      wake_thread-Woken s.threads,
      map-map_same is_stored wake_thread s.threads wake_thread-stored,
      set-Sums (map wake_thread s.threads) i notifying running woken,
      map-set_same is_stored (map wake_thread s.threads) i notifying running woken refl,
    )
Step-Inv {s} (BootStep.rouse i at) v =
    ground
      (arith, set-Sums s.threads i _ checking at, map-set_same is_stored s.threads i _ checking at)
Step-Inv {s} (BootStep.look_main e) v =
    main-Inv (all_true s.ptrs) v (ap all_true v.slots ∙ all_true-stored s.threads)
Step-Inv (BootStep.rouse_main e) v = ground arith

init-Inv : (n : ℕ) → Inv n (init_boot n)
init-Inv n = ground (
  arith,
  length-fill starting n,
  sym (map-fill is_stored starting n),
  total-fill sleeps starting n refl,
  total-fill pasts starting n refl,
)

pub Reach-Inv : {n : ℕ} {s : Boot} → BootReach n s → Inv n s
Reach-Inv {n} begin = init-Inv n
Reach-Inv (later r st) = Step-Inv st (Reach-Inv r)
