-- ===== src/Task/RoundRobin/Steps.antt =====
-- The turn that round robin gives to the first job of its queue.
use rusty_core.Prelude.{
  ℕ, ◌+◌, ◌<◌, ◌≡◌, sym, ap, ◌∙◌, subst, Bool, true, false, Outcome, done, u64_mod,
}
use rusty_core.Prelude.Vecs.{push}
use rusty_core.Preempt.Bitmap.{occupied}
use rusty_core.Preempt.Table.{max_tasks}
use rusty_core.Task.Spawn.{Task}
use rusty_core.Task.Ledger.{Line}
use rusty_core.Task.Run.{Kernel, Sched, verdict}
use rusty_core.Task.Run.Turn.{IsStep, after, after-task, after-IsConsistent, run_checked-returns}
use rusty_core.Task.Run.Settle.{IsReleased, settle-ready, settle-finished}
use rusty_core.Task.RoundRobin.{dispatch}
use rusty_core.Task.Run.Jobs.{next_line, Job}
use rusty_core.Task.Run.Jobs.{IsKept, IsTame, IsWaiting}
use rusty_core.Task.Run.Steps.{room, started, closure}

module _ {σ : Type 0} (run_step : ℕ → Kernel σ → Outcome (Bool × Kernel σ)) (left : ℕ → σ → ℕ) where
  -- The head of the queue takes its step.
  module _ (j : Job) (k : Kernel σ) (tame : IsTame run_step left)
      (w : IsWaiting run_step left j k) where
    module _ (alive : Bool) (k2 : Kernel σ) (step : IsStep run_step j.box k alive k2)
        (kept : IsKept run_step left
          (closure run_step left j k tame w)
          (started run_step left j k tame w)
          k2) where
      turn_room : (k.boxes j.box).runs + 1 < u64_mod
      turn_room = room run_step left j k tame w alive k2 step kept

      -- The turn of a task that stays alive, and that of a task that is done.
      pub turn_on :
          (s : Sched)
          → alive ≡ true
          → dispatch run_step j.box s k
            ≡ done (true, record s { ready = push s.ready j.box }, after run_step j.box alive k2)
      unfolding dispatch
      turn_on s stays = rw (run_checked-returns run_step j.box k alive k2 w.seated step turn_room) (
          rw (
            settle-ready j.box s (after run_step j.box alive k2) (
              ap (λ (t : Task). t.state)
                (after-task run_step j.box k alive k2 w.seated step turn_room)
              ∙ ap verdict stays)))

      pub turn_out :
          (s : Sched)
          → alive ≡ false
          → (k' : Kernel σ) × (dispatch run_step j.box s k
              ≡ done (
                true,
                record s { finished_runs = push s.finished_runs (j.id, j.name, j.ran + 1) },
                k',
              ))
            × IsReleased j.box (after run_step j.box alive k2) k'
      unfolding dispatch
      turn_out s ends =
          let k3 : Kernel σ = after run_step j.box alive k2 in
          let task = after-task run_step j.box k alive k2 w.seated step turn_room in
          let line : ((k3.boxes j.box).id, (k3.boxes j.box).name, (k3.boxes j.box).runs)
              ≡ (j.id, j.name, j.ran + 1) =
            ap (λ (t : Task). (t.id, t.name, t.runs)) task ∙ next_line run_step left j k w in
          let (k', settled, released) =
            settle-finished j.box s k3 (ap (λ (t : Task). t.state) task ∙ ap verdict ends)
              (subst (λ (t : Task). t.slot < max_tasks) (sym task) w.seated.slot_lt)
              (ap (λ (t : Task). occupied k3.table.slot_used t.slot) task
                ∙ ap (λ (used : ℕ). occupied used (k.boxes j.box).slot) step.occupancy
                ∙ w.seated.registered)
              (after-IsConsistent run_step j.box k alive k2 w.seated step turn_room) in
          (
            k',
            rw (run_checked-returns run_step j.box k alive k2 w.seated step turn_room, settled)
                (ap
                  (λ (l : Line).
                    done (true, record s { finished_runs = push s.finished_runs l }, k'))
                  line),
            released,
          )
