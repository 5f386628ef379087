-- ===== src/Task/Cfs.antt =====
-- `Cfs` of kernel/src/task.rs: the awake task with the least virtual runtime.
pub mod Pick
pub mod Turns
pub mod Weighted
pub mod Charge
pub mod Refines
pub mod Fair
mod Tests
use rusty_core.Prelude.{
  ℕ, zero, suc, ◌+◌, ◌/◌, ◌-◌, min, max, Bool, true, false, Option, none, some, List, [], ◌∷◌,
  if◌then◌else◌, ltb, length, get_elem?, Outcome, done, panics, running, ◌>>=◌, ◌>>◌, assert,
  saturating_add, saturating_mul,
}
use rusty_core.Prelude.Vecs.{push}
use rusty_core.Task.Spawn.{TaskState, Task}
use rusty_core.Task.Run.{Kernel, Sched, set_task_ptr, set_task, run_checked, settle, parked}

abbrev pub cfs_base_slice : ℕ
cfs_base_slice = 100

-- `CFS_BASE_SLICE.saturating_mul(1024) / w`, with `w` the weight but at least one.
abbrev pub slice : ℕ → ℕ
slice weight = saturating_mul cfs_base_slice 1024 / max weight 1

-- `VecDeque::remove(i)` at an index inside.
unfoldable pub remove_at : List ℕ → ℕ → List ℕ
remove_at [] i = []
remove_at (x ∷ xs) zero = xs
remove_at (x ∷ xs) (suc i) = x ∷ remove_at xs i

module _ {σ : Type 0} where
  unfoldable pub spawn : ℕ → Task → Sched → Kernel σ → Outcome (Sched × Kernel σ)
  unfolding set_task_ptr set_task
  spawn a task s k = do
    assert (ltb 0 task.weight)
    k2 ← set_task_ptr task.slot a (set_task a task k)
    done (record s { ready = push s.ready a }, k2)

  -- The scan of `pick_min` from index `i` on, with the best found so far.
  unfoldable pub scan : List ℕ → ℕ → Option (ℕ × ℕ) → Kernel σ → Option (ℕ × ℕ)
  unfolding parked
  scan [] i best k = best
  scan (a ∷ rest) i best k =
      let v = (k.boxes a).vruntime in
      let skip = scan rest (suc i) best k in
      let take = scan rest (suc i) (some (i, v)) k in
      if parked a k
      then skip
      else elim best [ none ↦ take | some (_, least) ↦ if ltb v least then take else skip ]

  unfoldable pub pick_min : Sched → Kernel σ → Option ℕ
  unfolding scan
  pick_min s k = elim (scan s.ready 0 none k) [ none ↦ none | some (i, _) ↦ some i ]

  -- The minimum over the queue; `unwrap_or(0)` on an empty one.
  unfoldable pub min_from : ℕ → List ℕ → Kernel σ → ℕ
  min_from least [] k = least
  min_from least (a ∷ rest) k = min_from (min least (k.boxes a).vruntime) rest k

  unfoldable pub min_vruntime : Sched → Kernel σ → ℕ
  unfolding min_from
  min_vruntime s k = elim s.ready [ [] ↦ 0 | a ∷ rest ↦ min_from (k.boxes a).vruntime rest k ]

  -- A woken sleeper rejoins at least at the minimum of the queue.
  unfoldable pub wake : ℕ → Sched → Kernel σ → Kernel σ
  unfolding min_vruntime set_task
  wake a s k = elim (k.boxes a).state [
    | TaskState.sleeping _ ↦
        let task = k.boxes a in
        let floor = min_vruntime s k in
        set_task a
          (record task {
            vruntime = if ltb task.vruntime floor then floor else task.vruntime;
            state = TaskState.ready;
          })
          k
    | _ ↦ k
  ]

  unfoldable pub accrue : ℕ → Kernel σ → Kernel σ
  unfolding set_task
  accrue a k =
      let task = k.boxes a in
      set_task a (record task { vruntime = saturating_add task.vruntime (slice task.weight) }) k

  module _ (run_step : ℕ → Kernel σ → Outcome (Bool × Kernel σ)) where
    unfoldable pub schedule_once : Sched → Kernel σ → Outcome (Bool × Sched × Kernel σ)
    unfolding pick_min wake run_checked accrue settle
    schedule_once s k = elim (pick_min s k) [
      | none ↦ done (false, s, k)
      | some i ↦ elim (get_elem? s.ready i) [
        | none ↦ panics
        | some a ↦ do
          let s2 = record s { ready = remove_at s.ready i }
          k2 ← run_checked run_step a (wake a s2 k)
          (s3, k3) ← settle a s2 (accrue a k2)
          done (true, s3, k3)
      ]
    ]
