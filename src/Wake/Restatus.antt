-- ===== src/Wake/Restatus.antt =====
-- A change of a task's status bits leaves all lists as they are.
use yaay_rs.Base.{◌≡◌, ◌≢◌, refl, List, some, ◌∙◌, ℕ_discrete}
use yaay_rs.Task.Status.{Status}
use yaay_rs.Task.Heap.{Ptr, Heap, Task}
use yaay_rs.TaskList.Defs.{TaskList}
use yaay_rs.TaskList.Kept.{IsList-Kept}
use yaay_rs.TaskList.Chain.{Live}
use yaay_rs.Shared.View.{Contents, Holds}

-- `g` is `h` but for the status of the task at `p`.
pub record Restatus (h : Heap) (p : Ptr) (s : Status) (g : Heap) : Type 0 where
  pub same : (a : Ptr) → a ≢ p → g a ≡ h a
  pub changed : (t : Task) → h p ≡ some t → g p ≡ some (record t { status = s })

module _ {h g : Heap} {p : Ptr} {s : Status} (r : Restatus h p s g) where
  pub Live-restatus : (a : Ptr) → (v : Live h a) → (w : Live g a) × (w.here.next ≡ v.here.next)
  Live-restatus a v = elim (ℕ_discrete a p) [
    | yes e ↦
        let t : Task = record (v.here) { status = s } in
        let at : h p ≡ some v.here = rw (← e) v.holds in
        (record { ne_null = v.ne_null; here = t; holds = rw e (r.changed v.here at) }, refl)
    | no ne ↦ (record { ne_null = v.ne_null; here = v.here; holds = r.same a ne ∙ v.holds }, refl)
  ]

  pub Holds-restatus : {qs : List TaskList} {c : Contents} → Holds h qs c → Holds g qs c
  Holds-restatus v = record {
    sized = v.sized;
    lists =
        λ i l xs at_q at_c. IsList-Kept l xs (λ a m. Live-restatus a) (v.lists i l xs at_q at_c);
    apart = v.apart;
  }
