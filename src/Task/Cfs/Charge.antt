-- ===== src/Task/Cfs/Charge.antt =====
-- The turn that `Cfs` gives to a job: the step, the charge, and the way back or out.
use rusty_core.Prelude.{
  ℕ, ◌+◌, ◌<◌, ◌≡◌, ◌≢◌, refl, sym, ap, ◌∙◌, subst, Bool, true, false, some, ==_iff, eq-false,
  get_elem?, Outcome, done, u64_mod, saturating_add,
}
use rusty_core.Prelude.Vecs.{push}
use rusty_core.Memory.Mapping.{virt_addr}
use rusty_core.Preempt.Frame.{valid_for}
use rusty_core.Preempt.Bitmap.{occupied}
use rusty_core.Preempt.Table.{max_tasks}
use rusty_core.Preempt.Table.Lifecycle.{IsConsistent}
use rusty_core.Task.Stack.{canary_ok}
use rusty_core.Task.Spawn.{TaskState, Task}
use rusty_core.Task.Ledger.{Line}
use rusty_core.Task.Run.{Kernel, Sched, set_task, verdict}
use rusty_core.Task.Run.Turn.{IsStep, after, after-task, after-IsConsistent, run_checked-returns}
use rusty_core.Task.Run.Settle.{IsReleased, settle-ready, settle-finished}
use rusty_core.Task.Run.Jobs.{next_line, Job, IsTame, IsWaiting, IsSpared, IsKept}
use rusty_core.Task.Run.Steps.{room, started, closure}
use rusty_core.Task.Cfs.{slice, remove_at, pick_min, wake, accrue, schedule_once}

module _ {σ : Type 0} (run_step : ℕ → Kernel σ → Outcome (Bool × Kernel σ)) (left : ℕ → σ → ℕ) where
  -- The task after its charge.
  abbrev pub billed : Task → Task
  billed t = record t { vruntime = saturating_add t.vruntime (slice t.weight) }

  pub accrued-box : (a : ℕ) (k : Kernel σ) → (accrue a k).boxes a ≡ billed (k.boxes a)
  unfolding accrue set_task
  accrued-box a k = rw ((==_iff a a).1 refl) refl

  pub accrue-IsSpared :
      (i : Job) (a : ℕ) (k : Kernel σ)
      → i.box ≢ a
      → IsConsistent k.table
      → IsSpared run_step left i k (accrue a k)
  unfolding accrue set_task
  accrue-IsSpared i a k other consistent = record {
    box = rw (eq-false a i.box (λ e. other (sym e))) refl;
    pointer = refl;
    occupancy = refl;
    canary = refl;
    due = refl;
    consistent = consistent;
  }

  pub accrue-IsWaiting :
      (j : Job) (k : Kernel σ)
      → IsWaiting run_step left j k
      → IsWaiting run_step left j (accrue j.box k)
  unfolding accrue set_task
  accrue-IsWaiting j k w =
      let k' : Kernel σ = accrue j.box k in
      let box = accrued-box j.box k in
      record {
        seated = record {
          slot_lt = subst (λ (t : Task). t.slot < max_tasks) (sym box) w.seated.slot_lt;
          pointed = ap (λ (t : Task). k'.task_ptrs t.slot) box ∙ w.seated.pointed;
          registered =
              ap (λ (t : Task). occupied k'.table.slot_used t.slot) box ∙ w.seated.registered;
          consistent = w.seated.consistent;
          canary = ap (λ (t : Task). canary_ok t.stack k'.mem) box ∙ w.seated.canary;
          canonical =
              subst (λ (t : Task). virt_addr t.stack.top ≡ done t.stack.top) (sym (box))
                w.seated.canonical;
          template =
              ap (λ (t : Task). valid_for t.preempt t.stack.bottom t.stack.top) box
              ∙ w.seated.template;
        };
        ready = ap (λ (t : Task). t.state) box ∙ w.ready;
        id = ap (λ (t : Task). t.id) box ∙ w.id;
        name = ap (λ (t : Task). t.name) box ∙ w.name;
        ran = ap (λ (t : Task). t.runs) box ∙ w.ran;
        step = ap (λ (t : Task). t.step) box ∙ w.step;
        due = w.due;
        some_due = w.some_due;
        room = w.room;
      }

  wake-ready :
      (a : ℕ) (s : Sched) (k : Kernel σ) → (k.boxes a).state ≡ TaskState.ready → wake a s k ≡ k
  unfolding wake
  wake-ready a s k e = rw (e, wake) refl

  module _ (j : Job) (k : Kernel σ) (tame : IsTame run_step left) (w : IsWaiting run_step left j k)
      (alive : Bool) (k2 : Kernel σ) (step : IsStep run_step j.box k alive k2)
      (kept : IsKept run_step left
        (closure run_step left j k tame w)
        (started run_step left j k tame w)
        k2)
      (s : Sched) (i : ℕ) (picked : pick_min s k ≡ some i)
      (at : get_elem? s.ready i ≡ some j.box) where
    turn_room : (k.boxes j.box).runs + 1 < u64_mod
    turn_room = room run_step left j k tame w alive k2 step kept

    abbrev pub ran : Kernel σ
    ran = after run_step j.box alive k2

    pub ran-task :
        ran.boxes j.box
        ≡ record (k.boxes j.box) { runs = (k.boxes j.box).runs + 1; state = verdict alive }
    ran-task = after-task run_step j.box k alive k2 w.seated step turn_room

    pub ran-IsConsistent : IsConsistent ran.table
    ran-IsConsistent = after-IsConsistent run_step j.box k alive k2 w.seated step turn_room

    abbrev pub paying : Kernel σ
    paying = accrue j.box ran

    pub paying-task :
        paying.boxes j.box
        ≡ record (billed (k.boxes j.box)) { runs = (k.boxes j.box).runs + 1; state = verdict alive }
    paying-task = accrued-box j.box ran ∙ ap billed ran-task

    pub paying-IsConsistent : IsConsistent paying.table
    unfolding accrue set_task
    paying-IsConsistent = ran-IsConsistent

    abbrev rest : Sched
    rest = record s { ready = remove_at s.ready i }

    pub charge_on :
        alive ≡ true
        → schedule_once run_step s k
          ≡ done (true, record s { ready = push (remove_at s.ready i) j.box }, paying)
    unfolding schedule_once
    charge_on stays =
        rw (picked, at, wake-ready j.box rest k w.ready, schedule_once)
          (rw (run_checked-returns run_step j.box k alive k2 w.seated step turn_room) (
            rw (
              settle-ready j.box rest paying
                (ap (λ (t : Task). t.state) paying-task ∙ ap verdict stays))))

    pub charge_out :
        alive ≡ false
        → (k' : Kernel σ) × (schedule_once run_step s k
            ≡ done (
              true,
              record rest { finished_runs = push s.finished_runs (j.id, j.name, j.ran + 1) },
              k',
            ))
          × IsReleased j.box paying k'
    unfolding schedule_once accrue set_task
    charge_out ends =
        let task = paying-task in
        let line : ((paying.boxes j.box).id, (paying.boxes j.box).name, (paying.boxes j.box).runs)
            ≡ (j.id, j.name, j.ran + 1) =
          ap (λ (t : Task). (t.id, t.name, t.runs)) task ∙ next_line run_step left j k w in
        let (k', settled, released) =
          settle-finished j.box rest paying (ap (λ (t : Task). t.state) task ∙ ap verdict ends)
            (subst (λ (t : Task). t.slot < max_tasks) (sym task) w.seated.slot_lt)
            (ap (λ (t : Task). occupied k2.table.slot_used t.slot) task
              ∙ ap (λ (used : ℕ). occupied used (k.boxes j.box).slot) step.occupancy
              ∙ w.seated.registered)
            ran-IsConsistent in
        (
          k',
          rw (picked, at, wake-ready j.box rest k w.ready, schedule_once)
              (rw (run_checked-returns run_step j.box k alive k2 w.seated step turn_room) (
                rw (settled) (
                  ap
                    (λ (l : Line).
                      done (true, record rest { finished_runs = push s.finished_runs l }, k'))
                    line))),
          released,
        )
