-- ===== src/Task/RoundRobin/Turns.antt =====
-- The turn that `RoundRobin` gives to the task at the head of the queue.
use rusty_core.Prelude.{
  ℕ, ◌+◌, ◌<◌, ◌≡◌, ap, sym, ◌∙◌, Bool, true, false, none, Outcome, done, u64_mod, subst,
}
use rusty_core.Prelude.Vecs.{push}
use rusty_core.Preempt.Bitmap.{occupied}
use rusty_core.Preempt.Table.{max_tasks}
use rusty_core.Preempt.Table.Lifecycle.{IsConsistent}
use rusty_core.Task.Spawn.{TaskState, Task}
use rusty_core.Task.Run.{Kernel, Sched}
use rusty_core.Task.Run.Turn.{
  after, IsSeated, IsStep, after-task, after-IsConsistent, run_checked-returns,
}
use rusty_core.Task.Run.Settle.{settle-ready, settle-finished}
use rusty_core.Task.RoundRobin.{dispatch}

module _ {σ : Type 0} (run_step : ℕ → Kernel σ → Outcome (Bool × Kernel σ)) (a : ℕ) (s : Sched)
    (k : Kernel σ) where
  -- A task whose step stays alive has one more run and goes to the back of the queue; the checks on
  -- its frames pass and the table stays consistent.
  pub dispatch-alive :
      (k2 : Kernel σ)
      → IsSeated run_step a k
      → IsStep run_step a k true k2
      → (k.boxes a).runs + 1 < u64_mod
      → (dispatch run_step a s k
          ≡ done (true, record s { ready = push s.ready a }, after run_step a true k2))
        × ((after run_step a true k2).boxes a
            ≡ record (k.boxes a) { runs = (k.boxes a).runs + 1; state = TaskState.ready })
        × IsConsistent (after run_step a true k2).table
  unfolding dispatch
  dispatch-alive k2 seat step room =
      let task = after-task run_step a k true k2 seat step room in
      (
        rw (run_checked-returns run_step a k true k2 seat step room)
            (rw (settle-ready a s (after run_step a true k2) (ap (λ (t : Task). t.state) task))),
        task,
        after-IsConsistent run_step a k true k2 seat step room,
      )

  -- A task whose step says that it is done leaves the queue: its line is in the ledger, its slot is free,
  -- no pointer leads to it, and the table stays consistent.
  pub dispatch-finished :
      (k2 : Kernel σ)
      → IsSeated run_step a k
      → IsStep run_step a k false k2
      → (k.boxes a).runs + 1 < u64_mod
      → (k' : Kernel σ) × (dispatch run_step a s k
          ≡ done (
            true,
            record s {
              finished_runs =
                  push s.finished_runs ((k.boxes a).id, (k.boxes a).name, (k.boxes a).runs + 1);
            },
            k',
          ))
        × IsConsistent k'.table
        × (occupied k'.table.slot_used (k.boxes a).slot ≡ false)
        × (k'.task_ptrs (k.boxes a).slot ≡ none)
  unfolding dispatch
  dispatch-finished k2 seat step room =
      let k3 : Kernel σ = after run_step a false k2 in
      let task = after-task run_step a k false k2 seat step room in
      let (k', settled, released) =
        settle-finished a s k3 (ap (λ (t : Task). t.state) task)
          (subst (λ (t : Task). t.slot < max_tasks) (sym task) seat.slot_lt)
          (ap (λ (t : Task). occupied k3.table.slot_used t.slot) task
            ∙ ap (λ (u : ℕ). occupied u (k.boxes a).slot) step.occupancy
            ∙ seat.registered)
          (after-IsConsistent run_step a k false k2 seat step room) in
      (
        k',
        rw (run_checked-returns run_step a k false k2 seat step room, settled)
            (ap
              (λ (t : Task). done (
                true,
                record s { finished_runs = push s.finished_runs (t.id, t.name, t.runs) },
                k',
              ))
              task),
        released.consistent,
        ap (λ (t : Task). occupied k'.table.slot_used t.slot) (sym task) ∙ released.vacated,
        ap (λ (t : Task). k'.task_ptrs t.slot) (sym task) ∙ released.unpointed,
      )
