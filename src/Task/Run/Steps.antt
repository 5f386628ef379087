-- ===== src/Task/Run/Steps.antt =====
-- The turn of a job, step by step.
use rusty_core.Prelude.{
  ℕ, ◌+◌, ◌<◌, ◌≡◌, ◌≢◌, refl, sym, ap, ◌∙◌, subst, Bool, true, eq-false, ltb, arith, Outcome, done,
  u64_mod,
}
use rusty_core.Memory.Mapping.{virt_addr}
use rusty_core.Preempt.Frame.{valid_for}
use rusty_core.Preempt.Bitmap.{occupied}
use rusty_core.Preempt.Table.{max_tasks}
use rusty_core.Task.Stack.{canary_ok}
use rusty_core.Task.Spawn.{TaskState, Task}
use rusty_core.Task.Run.{Kernel, set_state, verdict}
use rusty_core.Task.Run.Turn.{IsStep, entered, after, after-task, after-IsConsistent, marked}
use rusty_core.Task.Run.Settle.{IsReleased}
use rusty_core.Task.Run.Jobs.{Job, stepped, released-IsSpared}
use rusty_core.Task.Run.Jobs.{
  IsKept, IsTame, IsWaiting, IsSpared, slots_apart, IsSpared-trans, switched-IsConsistent,
}

module _ {σ : Type 0} (run_step : ℕ → Kernel σ → Outcome (Bool × Kernel σ)) (left : ℕ → σ → ℕ) where
  -- The job takes its step.
  module _ (j : Job) (k : Kernel σ) (tame : IsTame run_step left)
      (w : IsWaiting run_step left j k) where
    abbrev pub started : Kernel σ
    started = entered run_step j.box (set_state j.box TaskState.executing k)

    abbrev pub closure : ℕ
    closure = ((set_state j.box TaskState.executing k).boxes j.box).step

    closure-step : closure ≡ j.step
    closure-step = ap (λ (t : Task). t.step) (marked run_step j.box k) ∙ w.step

    due_now : left closure started.captured ≡ j.due
    unfolding set_state
    due_now = ap (λ (c : ℕ). left c k.captured) closure-step ∙ w.due

    -- Another box is not touched before the step.
    started-box : (b : ℕ) → b ≢ j.box → started.boxes b ≡ k.boxes b
    unfolding set_state
    started-box b other = rw (eq-false j.box b (λ e. other (sym e))) refl

    pub turn-IsStep :
        (k2 : Kernel σ) × IsStep run_step j.box k (ltb 1 j.due) k2
        × IsKept run_step left closure started k2
    unfolding set_state
    turn-IsStep =
        let (k2, ran, kept) =
          tame closure started (switched-IsConsistent run_step left k.table _ 1 w.seated.consistent)
            (subst (λ (n : ℕ). 0 < n) (sym due_now) w.some_due) in
        (
          k2,
          record {
            returned = subst (λ (n : ℕ). run_step closure started ≡ done (ltb 1 n, k2)) due_now ran;
            task = ap (λ (boxes : ℕ → Task). boxes j.box) kept.boxes ∙ marked run_step j.box k;
            pointers = kept.pointers;
            occupancy = kept.occupancy;
            kept = kept.consistent;
          },
          kept,
        )

    module _ (alive : Bool) (k2 : Kernel σ) (step : IsStep run_step j.box k alive k2)
        (kept : IsKept run_step left closure started k2) where
      pub room : (k.boxes j.box).runs + 1 < u64_mod
      room = omega (arith, w.ran, w.some_due, w.room)

      after-box : (b : ℕ) → b ≢ j.box → (after run_step j.box alive k2).boxes b ≡ k.boxes b
      after-box b other =
          rw (eq-false j.box b (λ e. other (sym e)))
            (ap (λ (boxes : ℕ → Task). boxes b) kept.boxes ∙ started-box b other)

      pub after-IsSpared :
          (i : Job)
          → i.box ≢ j.box
          → i.step ≢ j.step
          → IsSpared run_step left i k (after run_step j.box alive k2)
      unfolding set_state
      after-IsSpared i other apart = record {
        box = after-box i.box other;
        pointer = ap (λ (ptrs : ℕ → _). ptrs (k.boxes i.box).slot) step.pointers;
        occupancy = ap (λ (used : ℕ). occupied used (k.boxes i.box).slot) step.occupancy;
        canary =
            subst (λ (t : Task). canary_ok t.stack k2.mem ≡ canary_ok t.stack k.mem)
              (started-box i.box other) (kept.canaries i.box);
        due = kept.others i.step (λ e. apart (e ∙ closure-step));
        consistent = after-IsConsistent run_step j.box k alive k2 w.seated step room;
      }

      -- The task itself, when its step stays alive.
      pub own-IsWaiting :
          alive ≡ true
          → 1 < j.due
          → IsWaiting run_step left (stepped j) (after run_step j.box alive k2)
      unfolding set_state
      own-IsWaiting stays more =
          let k3 : Kernel σ = after run_step j.box alive k2 in
          let task = after-task run_step j.box k alive k2 w.seated step room in
          record {
            seated = record {
              slot_lt = subst (λ (t : Task). t.slot < max_tasks) (sym task) w.seated.slot_lt;
              pointed =
                  ap (λ (t : Task). k3.task_ptrs t.slot) task
                  ∙ ap (λ (ptrs : ℕ → _). ptrs (k.boxes j.box).slot) step.pointers
                  ∙ w.seated.pointed;
              registered =
                  ap (λ (t : Task). occupied k3.table.slot_used t.slot) task
                  ∙ ap (λ (used : ℕ). occupied used (k.boxes j.box).slot) step.occupancy
                  ∙ w.seated.registered;
              consistent = after-IsConsistent run_step j.box k alive k2 w.seated step room;
              canary =
                  ap (λ (t : Task). canary_ok t.stack k2.mem) task
                  ∙ subst (λ (t : Task). canary_ok t.stack k2.mem ≡ canary_ok t.stack k.mem)
                      (marked run_step j.box k) (kept.canaries j.box)
                  ∙ w.seated.canary;
              canonical =
                  subst (λ (t : Task). virt_addr t.stack.top ≡ done t.stack.top) (sym (task))
                    w.seated.canonical;
              template =
                  ap (λ (t : Task). valid_for t.preempt t.stack.bottom t.stack.top) task
                  ∙ w.seated.template;
            };
            ready = ap (λ (t : Task). t.state) task ∙ ap verdict stays;
            id = ap (λ (t : Task). t.id) task ∙ w.id;
            name = ap (λ (t : Task). t.name) task ∙ w.name;
            ran = ap (λ (t : Task). t.runs) task ∙ ap (λ (n : ℕ). n + 1) w.ran;
            step = ap (λ (t : Task). t.step) task ∙ w.step;
            due =
                let spent =
                  subst (λ (c : ℕ). left c k2.captured + 1 ≡ left c k.captured) closure-step
                    kept.fewer in
                omega (arith, w.due, spent);
            some_due = omega arith;
            room = omega (arith, w.room, w.some_due);
          }

      -- What the release of the task leaves of another, from before its turn.
      pub freed-IsSpared :
          (i : Job) (k3 k' : Kernel σ)
          → i.box ≢ j.box
          → IsWaiting run_step left i k
          → IsSpared run_step left i k k3
          → (k3.boxes j.box).slot ≡ (k.boxes j.box).slot
          → IsReleased j.box k3 k'
          → IsSpared run_step left i k k'
      freed-IsSpared i k3 k' other wi spared slot released =
          let different : (k3.boxes i.box).slot ≢ (k3.boxes j.box).slot = λ e.
            slots_apart run_step left i j k other wi w
              (sym (ap (λ (t : Task). t.slot) spared.box) ∙ e ∙ slot) in
          IsSpared-trans run_step left i k k3 k' spared (
            released-IsSpared run_step left i j k3 k'
              (subst (λ (t : Task). t.slot < max_tasks) (sym spared.box) wi.seated.slot_lt)
              different released)
