-- ===== src/Wake/Laws.antt =====
-- What `wake` does to the queues and the local lists.
use yaay_rs.Base.{
  ℕ, ◌+◌, ◌≡◌, ◌≢◌, refl, true, false, List, [], ◌∷◌, ◌++◌, Option, some, none, get_elem?, set,
  arith, sym, ◌∙◌, get_elem?-of_lt, lt_of_get_elem?, ℕ_discrete, get_elem?-set_lt, get_elem?-set_ne,
  if◌then◌else◌,
}
use yaay_rs.Task.Status.{Status}
use yaay_rs.Task.Heap.{Ptr, Heap}
use yaay_rs.Task.Protocol.{is_settled}
use yaay_rs.Epoch.Defs.{next_epoch}
use yaay_rs.TaskList.Defs.{TaskList, push_back}
use yaay_rs.TaskList.Chain.{Live, IsList}
use yaay_rs.TaskList.Alike.{Alike, Alike-Live, push_back-Alike}
use yaay_rs.Shared.State.{Runtime, lock_push_back, call_next_epoch}
use yaay_rs.Shared.View.{Contents, View, Nowhere, Nowhere-get, set-Holds, Holds-frame}
use yaay_rs.Shared.Locked.{
  Ends, Ends-get, Quiet, lock_push_back-View, tail-Absent, Disjoint-snoc, snoc-Disjoint,
}
use yaay_rs.Batch.Split.{Split, Holds-IsList}
use yaay_rs.Wake.{Local, nothing, batch, worker, push_local, schedule, wake}
use yaay_rs.Wake.Restatus.{Restatus, Holds-restatus}
use yaay_rs.Wake.Marked.{
  notified, write-same, marked-Restatus, marked-Live, marked_rt, wake-settled, wake-schedule,
}

-- What a wake finds through LOCAL: the queues, and the local lists where there are any.
abbrev pub Sees : Local → Runtime → Contents → Contents → Type 0
Sees nothing rt c d = View rt c
Sees (batch lists) rt c d = Split rt.heap rt.queues c lists d
Sees worker rt c d = View rt c

pub Sees-Restatus :
    {s : Status} (local : Local) (rt : Runtime) (c d : Contents) (p : Ptr) (g : Heap)
    → Restatus rt.heap p s g
    → Sees local rt c d
    → Sees local (record rt { heap = g }) c d
Sees-Restatus nothing rt c d p g r v = Holds-restatus r v
Sees-Restatus (batch lists) rt c d p g r v = record {
  queues = Holds-restatus r v.queues;
  locals = Holds-restatus r v.locals;
  cross = v.cross;
}
Sees-Restatus worker rt c d p g r v = Holds-restatus r v

-- A wake of a task that is muted or dropped sets its bits MUTED and NOTIFIED and changes nothing else:
-- no queue, no local list, no epoch.
pub wake_settled :
    (local : Local) (rt : Runtime) (c d : Contents) (task : Ptr) (v : Live rt.heap task)
    → is_settled v.here.status ≡ true
    → Sees local rt c d
    → Ends
        (λ local' rt'.
          (local' ≡ local)
          × Sees local rt' c d
          × (rt'.heap task ≡ some (record (v.here) { status = notified v.here.status }))
          × Quiet rt rt')
        (wake local task rt)
wake_settled local rt c d task v e sees = rw (wake-settled rt task v local e) (
  refl,
  Sees-Restatus local rt c d task _ (marked-Restatus rt.heap task v) sees,
  write-same rt.heap task _,
  (refl, refl),
)

-- The sequences to which a wake adds: those of the queues, or of the local lists.
abbrev pub targets : Local → Contents → Contents → Contents
targets nothing c d = c
targets (batch lists) c d = d
targets worker c d = []

-- The task stands behind the tasks `xs` of the queue of worker `i`, and `next_epoch` has been called;
-- or it stands behind those of the local list for that worker, and it has not.
abbrev pub Scheduled :
    Local → Runtime → Contents → Contents → ℕ → List Ptr → Ptr → Local → Runtime → Type 0
Scheduled nothing rt c d i xs task local' rt' =
    (local' ≡ nothing)
    × View rt' (set c i (xs ++ task ∷ []))
    × (rt'.status ≡ (next_epoch rt.status).word)
    × (rt'.unparks ≡ (if (next_epoch rt.status).wakes then rt.unparks + 1 else rt.unparks))
Scheduled (batch lists) rt c d i xs task local' rt' =
    (lists' : List TaskList) × (local' ≡ batch lists')
    × Split rt'.heap rt'.queues c lists' (set d i (xs ++ task ∷ []))
    × Quiet rt rt'
Scheduled worker rt c d i xs task local' rt' = ⊥

-- The local list `i` is extended by a task that is in no list; only the old tail of the list changes.
pub push_local-Split :
    (rt : Runtime) (c d : Contents) (i : ℕ) (lists : List TaskList) (l l' : TaskList)
    (xs : List Ptr) (task : Ptr) (h : Heap)
    → Split rt.heap rt.queues c lists d
    → get_elem? d i ≡ some xs
    → IsList rt.heap l xs
    → Nowhere task c
    → Nowhere task d
    → IsList h l' (xs ++ task ∷ [])
    → ((a : Ptr) → a ≢ l.tail → h a ≡ rt.heap a)
    → Split h rt.queues c (set lists i l') (set d i (xs ++ task ∷ []))
push_local-Split rt c d i lists l l' xs task h sees at is out_c out_d is' same = record {
  queues = Holds-frame h l.tail sees.queues same (λ j zs at_j.
      let (m, is_m) = Holds-IsList sees.queues j zs at_j in
      tail-Absent rt.heap l m xs zs is is_m (sees.cross j i zs xs at_j at).1);
  locals =
      set-Holds h i l' (xs ++ task ∷ []) l.tail sees.locals (lt_of_get_elem? d i xs at) is' same
        (λ j zs ne at_j.
          let (m, is_m) = Holds-IsList sees.locals j zs at_j in
          let apart = sees.locals.apart i j xs zs (λ e. ne (sym e)) at at_j in
          let out = Nowhere-get task d j zs out_d at_j in
          (
            tail-Absent rt.heap l m xs zs is is_m apart,
            Disjoint-snoc xs zs task apart out,
            snoc-Disjoint zs xs task (sees.locals.apart j i zs xs ne at_j at) out,
          ));
  cross = λ j k us zs at_j at_k.
      let out = Nowhere-get task c j us out_c at_j in
      elim (ℕ_discrete k i) [
        | yes e ↦
            let e_z : xs ++ task ∷ [] ≡ zs =
              cc (get_elem?-set_lt d i (xs ++ task ∷ []) (lt_of_get_elem? d i xs at)) in
            let apart = sees.cross j i us xs at_j at in
            rw (← e_z) (snoc-Disjoint us xs task apart.0 out, Disjoint-snoc xs us task apart.1 out)
        | no ne ↦
            sees.cross j k us zs at_j (sym (get_elem?-set_ne d i k (xs ++ task ∷ []) ne) ∙ at_k)
      ];
}

pub push_local-run :
    (lists : List TaskList) (i : ℕ) (task : Ptr) (rt : Runtime) (l l' : TaskList) (h : Heap)
    → get_elem? lists i ≡ some l
    → push_back l task rt.heap ≡ some (l', h)
    → push_local lists i task rt ≡ some (batch (set lists i l'), record rt { heap = h })
unfolding push_local
push_local-run lists i task rt l l' h at ran = ground arith

schedule-Scheduled :
    (local : Local) (rt : Runtime) (c d : Contents) (i : ℕ) (xs : List Ptr) (task : Ptr)
    → Sees local rt c d
    → Live rt.heap task
    → Nowhere task c
    → Nowhere task d
    → get_elem? (targets local c d) i ≡ some xs
    → Ends
        (λ local' rt'. Scheduled local rt c d i xs task local' rt' × Alike rt.heap rt'.heap)
        (schedule local i task rt)
unfolding schedule call_next_epoch
schedule-Scheduled nothing rt c d i xs task sees v out_c out_d at =
    let (_, rt', ran, post) =
      Ends-get (lock_push_back i task rt) (lock_push_back-View rt c sees i xs at task v out_c) in
    rw ran ((refl, post.0, ground (arith, post.1.0), ground (arith, post.1.0, post.1.1)), post.2)
schedule-Scheduled (batch lists) rt c d i xs task sees v out_c out_d at =
    let (l, at_l) =
      get_elem?-of_lt lists i (omega (arith, sees.locals.sized, lt_of_get_elem? d i xs at)) in
    let is : IsList rt.heap l xs = sees.locals.lists i l xs at_l at in
    let (l', h, ran, is', same, alike) =
      push_back-Alike rt.heap l xs task is v (Nowhere-get task d i xs out_d at) in
    rw (push_local-run lists i task rt l l' h at_l ran) (
      (
        set lists i l',
        refl,
        push_local-Split rt c d i lists l l' xs task h sees at is out_c out_d is' same,
        (refl, refl),
      ),
      alike,
    )
schedule-Scheduled worker rt c d i xs task sees v out_c out_d at = absurd (ground arith)

-- The task lives, and its bits MUTED and NOTIFIED are set; DROPPED is as before.
abbrev pub Bits : Status → Ptr → Runtime → Type 0
Bits prev task rt' =
    (w : Live rt'.heap task) × (w.here.status ≡ record prev { muted = true; notified = true })

Alike-Bits :
    (prev : Status) (task : Ptr) (h : Heap) (rt' : Runtime) (v : Live h task)
    → v.here.status ≡ notified prev
    → Alike h rt'.heap
    → Bits prev task rt'
Alike-Bits prev task h rt' v e alike =
    let (w, same, _) = Alike-Live alike v in (w, same ∙ e ∙ ground arith)

-- What is scheduled does not depend on the heap before.
Ends-Scheduled :
    (local : Local) (rt : Runtime) (g : Heap) (c d : Contents) (i : ℕ) (xs : List Ptr) (task : Ptr)
    (prev : Status) (v : Live g task) (r : Option (Local × Runtime))
    → v.here.status ≡ notified prev
    → Ends
        (λ local' rt'.
          Scheduled local (record rt { heap = g }) c d i xs task local' rt' × Alike g rt'.heap)
        r
    → Ends (λ local' rt'. Scheduled local rt c d i xs task local' rt' × Bits prev task rt') r
Ends-Scheduled local rt g c d i xs task prev v none e ran = elim ran [ ]
Ends-Scheduled nothing rt g c d i xs task prev v (some (local', rt')) e ran =
    (ran.0, Alike-Bits prev task g rt' v e ran.1)
Ends-Scheduled (batch lists) rt g c d i xs task prev v (some (local', rt')) e ran =
    (ran.0, Alike-Bits prev task g rt' v e ran.1)
Ends-Scheduled worker rt g c d i xs task prev v (some (local', rt')) e ran =
    (ran.0, Alike-Bits prev task g rt' v e ran.1)

-- A wake of a task that is neither muted nor dropped, and is in no list: its bits MUTED and NOTIFIED are
-- set, and it is put behind the others in the queue of its worker, with a call of `next_epoch`, or,
-- within a batch, in the local list for that worker, with none.
pub wake-Scheduled :
    (local : Local) (rt : Runtime) (c d : Contents) (xs : List Ptr) (task : Ptr)
    (v : Live rt.heap task)
    → is_settled v.here.status ≡ false
    → Sees local rt c d
    → Nowhere task c
    → Nowhere task d
    → get_elem? (targets local c d) v.here.worker_id ≡ some xs
    → Ends
        (λ local' rt'.
          Scheduled local rt c d v.here.worker_id xs task local' rt' × Bits v.here.status task rt')
        (wake local task rt)
wake-Scheduled local rt c d xs task v e sees out_c out_d at = rw (wake-schedule rt task v local e) (
    Ends-Scheduled local rt _ c d v.here.worker_id xs task v.here.status
      (record {
        ne_null = v.ne_null;
        here = record (v.here) { status = notified v.here.status };
        holds = write-same rt.heap task _;
      })
      _ refl
      (schedule-Scheduled local (marked_rt rt task v) c d v.here.worker_id xs task
        (Sees-Restatus local rt c d task _ (marked-Restatus rt.heap task v) sees)
        (marked-Live rt.heap task v) out_c out_d at))
