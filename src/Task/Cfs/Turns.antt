-- ===== src/Task/Cfs/Turns.antt =====
-- The turn of the task that `Cfs` has picked: what it is charged, and that nobody is starved by a nap.
use rusty_core.Prelude.{
  ℕ, ◌+◌, ◌<◌, ◌≤◌, ◌≡◌, ◌⊎◌, inl, inr, suc, ◌∙◌, refl, ap, Bool, true, some, List, [], ◌∷◌, min,
  max, arith, ==_iff, get_elem?, Outcome, done, u64_mod, saturating_add,
}
use native.Mathlib.Decide.{dec_le}
use rusty_core.Prelude.Vecs.{push, All}
use rusty_core.Preempt.Table.Lifecycle.{IsConsistent}
use rusty_core.Task.Spawn.{TaskState, Task}
use rusty_core.Task.Run.{Kernel, Sched, set_task}
use rusty_core.Task.Run.Turn.{
  after, IsSeated, IsStep, after-task, after-IsConsistent, run_checked-returns,
}
use rusty_core.Task.Run.Settle.{settle-ready}
use rusty_core.Task.Cfs.{
  slice, remove_at, min_from, min_vruntime, wake, accrue, pick_min, schedule_once,
}

module _ {σ : Type 0} (k : Kernel σ) where
  min_from-le :
      (least : ℕ) (l : List ℕ)
      → (min_from least l k ≤ least) × All (λ b. min_from least l k ≤ (k.boxes b).vruntime) l
  unfolding min_from
  min_from-le least [] = (omega arith, tt)
  min_from-le least (a ∷ l) =
      let (h, rest) = min_from-le (min least (k.boxes a).vruntime) l in
      (omega arith, (omega arith, rest))

  -- The floor is at most the virtual runtime of every queued task.
  min_vruntime-le : (s : Sched) → All (λ b. min_vruntime s k ≤ (k.boxes b).vruntime) s.ready
  unfolding min_vruntime
  min_vruntime-le s = elim s.ready as (λ l. All (λ b. floor l ≤ (k.boxes b).vruntime) l) [
    | [] ↦ tt
    | a ∷ l ↦ min_from-le (k.boxes a).vruntime l
  ]
    where
      floor : List ℕ → ℕ
      floor l = elim l [ [] ↦ 0 | a ∷ rest ↦ min_from (k.boxes a).vruntime rest k ]

  -- The running minimum is the one that it started with, or that of a task of the rest.
  min_from-attained :
      (least : ℕ) (l : List ℕ)
      → (min_from least l k ≡ least)
        ⊎ ((i : ℕ) × (b : ℕ) × (get_elem? l i ≡ some b)
            × (min_from least l k ≡ (k.boxes b).vruntime))
  unfolding min_from
  min_from-attained least [] = inl refl
  min_from-attained least (a ∷ l) = elim (dec_le least (k.boxes a).vruntime) [
    | yes le ↦
        let same : min least (k.boxes a).vruntime ≡ least = omega arith in
        elim (min_from-attained (min least (k.boxes a).vruntime) l) [
          | inl e ↦ inl (e ∙ same)
          | inr (i, b, at, e) ↦ inr (suc i, b, at, e)
        ]
    | no gt ↦
        let same : min least (k.boxes a).vruntime ≡ (k.boxes a).vruntime = omega arith in
        elim (min_from-attained (min least (k.boxes a).vruntime) l) [
          | inl e ↦ inr (0, a, refl, e ∙ same)
          | inr (i, b, at, e) ↦ inr (suc i, b, at, e)
        ]
  ]

  -- The least virtual runtime of a queue: that of one of its tasks and not above that of any, or zero
  -- where the queue is empty.
  pub record IsFloor (floor : ℕ) (l : List ℕ) : Type 0 where
    pub least : All (λ b. floor ≤ (k.boxes b).vruntime) l
    pub attained :
        ((l ≡ []) × (floor ≡ 0))
        ⊎ ((i : ℕ) × (b : ℕ) × (get_elem? l i ≡ some b) × (floor ≡ (k.boxes b).vruntime))

  min_vruntime-IsFloor : (s : Sched) → IsFloor (min_vruntime s k) s.ready
  unfolding min_vruntime
  min_vruntime-IsFloor s = record { least = min_vruntime-le s; attained = reached s.ready }
    where
      floor : List ℕ → ℕ
      floor l = elim l [ [] ↦ 0 | a ∷ rest ↦ min_from (k.boxes a).vruntime rest k ]

      reached :
          (l : List ℕ)
          → ((l ≡ []) × (floor l ≡ 0))
            ⊎ ((i : ℕ) × (b : ℕ) × (get_elem? l i ≡ some b) × (floor l ≡ (k.boxes b).vruntime))
      reached [] = inl (refl, refl)
      reached (a ∷ l) = elim (min_from-attained (k.boxes a).vruntime l) [
        | inl e ↦ inr (0, a, refl, e)
        | inr (i, b, at, e) ↦ inr (suc i, b, at, e)
      ]

  -- A sleeper that wakes is ready, and its virtual runtime is the greater of its own and the floor of the queue,
  -- which is the least virtual runtime of the queued tasks, attained by one of them, or zero where none is queued.
  -- The rest of its record is as it was.
  pub wake-IsFloor :
      (a until_tick : ℕ) (s : Sched)
      → (k.boxes a).state ≡ TaskState.sleeping until_tick
      → (floor : ℕ) × IsFloor floor s.ready
        × ((wake a s k).boxes a ≡ record (k.boxes a) {
          vruntime = max (k.boxes a).vruntime floor;
          state = TaskState.ready;
        })
  unfolding wake set_task
  wake-IsFloor a until_tick s e = (
    min_vruntime s k,
    min_vruntime-IsFloor s,
    rw (e, wake, (==_iff a a).1 refl)
        (ap (λ (v : ℕ). record (k.boxes a) { vruntime = v; state = TaskState.ready })
          (ground arith)),
  )

module _ {σ : Type 0} (run_step : ℕ → Kernel σ → Outcome (Bool × Kernel σ)) (a i : ℕ) (s : Sched)
    (k : Kernel σ) where
  -- The turn under `Cfs` of a task that stays alive: the picked task leaves its place, runs one step,
  -- is charged the slice that its weight gives it, saturating, and goes to the back; the checks on its
  -- frames pass and the table stays consistent.
  pub schedule_once-charges :
      (k2 : Kernel σ)
      → pick_min s k ≡ some i
      → get_elem? s.ready i ≡ some a
      → IsSeated run_step a (wake a (record s { ready = remove_at s.ready i }) k)
      → IsStep run_step a (wake a (record s { ready = remove_at s.ready i }) k) true k2
      → ((wake a (record s { ready = remove_at s.ready i }) k).boxes a).runs + 1 < u64_mod
      → let woken = (wake a (record s { ready = remove_at s.ready i }) k).boxes a in
        (k' : Kernel σ) × (schedule_once run_step s k
          ≡ done (true, record s { ready = push (remove_at s.ready i) a }, k'))
        × (k'.boxes a ≡ record woken {
          runs = woken.runs + 1;
          state = TaskState.ready;
          vruntime = saturating_add woken.vruntime (slice woken.weight);
        })
        × IsConsistent k'.table
  unfolding schedule_once accrue set_task
  schedule_once-charges k2 picked at seat step room =
      let s2 : Sched = record s { ready = remove_at s.ready i } in
      let k1 : Kernel σ = wake a s2 k in
      let k3 : Kernel σ = after run_step a true k2 in
      let task = after-task run_step a k1 true k2 seat step room in
      let charged = charge k3 _ task in
      (
        accrue a k3,
        rw (picked, at, schedule_once)
            (rw (run_checked-returns run_step a k1 true k2 seat step room)
              (rw (settle-ready a s2 (accrue a k3) (ap (λ (t : Task). t.state) charged)))),
        charged,
        after-IsConsistent run_step a k1 true k2 seat step room,
      )
    where
      charge :
          (k3 : Kernel σ) (t : Task)
          → k3.boxes a ≡ t
          → (accrue a k3).boxes a
            ≡ record t { vruntime = saturating_add t.vruntime (slice t.weight) }
      charge k3 t e =
          rw ((==_iff a a).1 refl) (
            ap (λ (u : Task). record u { vruntime = saturating_add u.vruntime (slice u.weight) }) e)
