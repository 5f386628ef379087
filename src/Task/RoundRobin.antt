-- ===== src/Task/RoundRobin.antt =====
-- `RoundRobin` of kernel/src/task.rs: a FIFO queue, one step each.
pub mod Fifo
pub mod Turns
pub mod Rota
pub mod Steps
pub mod Refines
pub mod Fair
mod Tests
use rusty_core.Prelude.{
  ℕ, zero, suc, Bool, true, false, List, [], ◌∷◌, if◌then◌else◌, length, Outcome, done, panics,
  running, ◌>>=◌, ◌>>◌, assert,
}
use rusty_core.Prelude.Vecs.{push}
use rusty_core.Task.Spawn.{TaskState, Task}
use rusty_core.Task.Run.{Kernel, Sched, set_task_ptr, set_task, run_checked, settle, parked}

module _ {σ : Type 0} where
  -- `a` is the address of the box.
  unfoldable pub spawn : ℕ → Task → Sched → Kernel σ → Outcome (Sched × Kernel σ)
  unfolding set_task_ptr set_task
  spawn a task s k = do
    k2 ← set_task_ptr task.slot a (set_task a task k)
    done (record s { ready = push s.ready a }, k2)

  module _ (run_step : ℕ → Kernel σ → Outcome (Bool × Kernel σ)) where
    -- The turn of the task that the pass found awake. A woken sleeper is first marked ready, and then
    -- running like any other.
    unfoldable pub dispatch : ℕ → Sched → Kernel σ → Outcome (Bool × Sched × Kernel σ)
    unfolding run_checked settle
    dispatch a s k = do k2 ← run_checked run_step a k; (s2, k3) ← settle a s k2; done (true, s2, k3)

    -- `for _ in 0..len`, with `left` rounds to go.
    unfoldable pub pass : ℕ → Sched → Kernel σ → Outcome (Bool × Sched × Kernel σ)
    unfolding dispatch parked
    pass zero s k = done (false, s, k)
    pass (suc left) s k = elim s.ready [
      | [] ↦ done (false, s, k)
      | a ∷ rest ↦
          let onwards = pass left (record s { ready = push rest a }) k in
          if parked a k then onwards else dispatch a (record s { ready = rest }) k
    ]

    unfoldable pub schedule_once : Sched → Kernel σ → Outcome (Bool × Sched × Kernel σ)
    unfolding pass
    schedule_once s k = pass (length s.ready) s k

abbrev pub alive : Sched → ℕ
alive s = length s.ready
