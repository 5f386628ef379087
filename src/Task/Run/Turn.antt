-- ===== src/Task/Run/Turn.antt =====
-- What a turn does, when the task is seated and its step behaves.
use rusty_core.Prelude.{
  ℕ, ◌+◌, ◌<◌, ◌≡◌, refl, ap, sym, ◌∙◌, Bool, true, false, some, arith, lt→ltb, ◌==◌, ==_iff,
  update, Outcome, done, ◌>>=◌, u64_mod, subst,
}
use rusty_core.Preempt.Frame.{valid_for}
use rusty_core.Preempt.Bitmap.{occupied}
use rusty_core.Preempt.Table.{Table, max_tasks, set_preemptible, set_current, frame_ok}
use rusty_core.Preempt.Table.Lifecycle.{IsConsistent, frame_ok-occupied}
use rusty_core.Memory.Mapping.{virt_addr}
use rusty_core.Task.Stack.{canary_ok}
use rusty_core.Task.Spawn.{TaskState, Task}
use rusty_core.Task.Run.{
  Kernel, task_at, current_task, fence, set_task, set_state, verdict, take_step, trampoline_round,
  switch_to_task, run_checked,
}

module _ {σ : Type 0} (run_step : ℕ → Kernel σ → Outcome (Bool × Kernel σ)) where
  -- The task at `a` owns its slot, the slot points back to it, and its stack ends at a canonical address.
  pub record IsSeated (a : ℕ) (k : Kernel σ) : Type 0 where
    pub slot_lt : (k.boxes a).slot < max_tasks
    pub pointed : k.task_ptrs (k.boxes a).slot ≡ some a
    pub registered : occupied k.table.slot_used (k.boxes a).slot ≡ true
    pub consistent : IsConsistent k.table
    pub canary : canary_ok (k.boxes a).stack k.mem ≡ true
    pub canonical : virt_addr (k.boxes a).stack.top ≡ done (k.boxes a).stack.top
    pub template :
        valid_for (k.boxes a).preempt (k.boxes a).stack.bottom (k.boxes a).stack.top ≡ true

  take_step-returns :
      (a : ℕ) (k k2 : Kernel σ) (alive : Bool)
      → run_step (k.boxes a).step (fence true k) ≡ done (alive, k2)
      → (k2.boxes a).runs + 1 < u64_mod
      → take_step run_step a k
        ≡ done (
            fence false (
              set_task a
                (record (k2.boxes a) { runs = (k2.boxes a).runs + 1; state = verdict alive })
                k2))
  unfolding take_step
  take_step-returns a k k2 alive e room = rw (e, lt→ltb ((k2.boxes a).runs + 1) u64_mod room)

  current_task-found :
      (a : ℕ) (k : Kernel σ)
      → k.table.current_idx < max_tasks
      → k.task_ptrs k.table.current_idx ≡ some a
      → current_task k ≡ done a
  unfolding current_task task_at
  current_task-found a k lt pointed = ground arith

  trampoline_round-returns :
      (a : ℕ) (k k3 : Kernel σ)
      → k.table.current_idx < max_tasks
      → k.task_ptrs k.table.current_idx ≡ some a
      → canary_ok (k.boxes a).stack k.mem ≡ true
      → take_step run_step a k ≡ done k3
      → trampoline_round run_step k ≡ done k3
  unfolding trampoline_round
  trampoline_round-returns a k k3 lt pointed canary e =
      rw (current_task-found a k lt pointed, trampoline_round) (rw (canary, e))

  -- The kernel in which the step of `a` starts: the fence up, the slot published.
  abbrev pub entered : ℕ → Kernel σ → Kernel σ
  entered a k = record k {
    table = record k.table { current_idx = (k.boxes a).slot; preemptible = 1 };
    rsp0 = (k.boxes a).stack.top;
  }

  -- The kernel after the turn of `a`, whose step returned `alive` in `k2`.
  abbrev pub after : ℕ → Bool → Kernel σ → Kernel σ
  after a alive k2 = record k2 {
    boxes =
        update k2.boxes a
          (record (k2.boxes a) { runs = (k2.boxes a).runs + 1; state = verdict alive });
    table = record k2.table { current_idx = max_tasks; preemptible = 0 };
  }

  switch_to_task-returns :
      (a : ℕ) (k k2 : Kernel σ) (alive : Bool)
      → IsSeated a k
      → run_step (k.boxes a).step (entered a k) ≡ done (alive, k2)
      → (k2.boxes a).runs + 1 < u64_mod
      → switch_to_task run_step a k ≡ done (after a alive k2)
  unfolding switch_to_task set_current fence set_task set_preemptible
  switch_to_task-returns a k k2 alive seat e room =
      let k1 : Kernel σ = record k {
        table = record k.table { current_idx = (k.boxes a).slot };
        rsp0 = (k.boxes a).stack.top;
      } in
      rw (
        seat.canonical,
        ◌>>=◌,
        trampoline_round-returns a k1 _ seat.slot_lt seat.pointed seat.canary
            (take_step-returns a k1 k2 alive e room),
      )

  -- The step of `a`, which started in `entered`, returned `alive` in `k2`. It has left the task's
  -- record, the pointers and the occupancy alone, and the table consistent.
  pub record IsStep (a : ℕ) (k : Kernel σ) (alive : Bool) (k2 : Kernel σ) : Type 0 where
    pub returned :
        run_step
          ((set_state a TaskState.executing k).boxes a).step
          (entered a (set_state a TaskState.executing k))
        ≡ done (alive, k2)
    pub task : k2.boxes a ≡ record (k.boxes a) { state = TaskState.executing }
    pub pointers : k2.task_ptrs ≡ k.task_ptrs
    pub occupancy : k2.table.slot_used ≡ k.table.slot_used
    pub kept : IsConsistent k2.table

  unfenced-IsConsistent :
      (t : Table)
      → IsConsistent t
      → IsConsistent (record t { current_idx = max_tasks; preemptible = 0 })
  unfenced-IsConsistent t c = record {
    byte = c.byte;
    live = λ i h o. let l = c.live i h o in record { valid = l.valid; window = l.window };
    retired = c.retired;
  }

  module _ (a : ℕ) (k : Kernel σ) where
    pub marked :
        (set_state a TaskState.executing k).boxes a
        ≡ record (k.boxes a) { state = TaskState.executing }
    unfolding set_state
    marked = rw ((==_iff a a).1 refl)

    marked-IsSeated : IsSeated a k → IsSeated a (set_state a TaskState.executing k)
    unfolding set_state
    marked-IsSeated seat = record {
      slot_lt = rw here seat.slot_lt;
      pointed = rw here seat.pointed;
      registered = rw here seat.registered;
      consistent = seat.consistent;
      canary = rw here seat.canary;
      canonical = rw here seat.canonical;
      template = rw here seat.template;
    }
      where
        here : (a == a) ≡ true
        here = (==_iff a a).1 refl

    module _ (alive : Bool) (k2 : Kernel σ) (seat : IsSeated a k) (step : IsStep a k alive k2)
        (room : (k.boxes a).runs + 1 < u64_mod) where
      -- The task after its turn.
      abbrev pub turned : Task
      turned = record (k.boxes a) { runs = (k.boxes a).runs + 1; state = verdict alive }

      pub after-task : (after a alive k2).boxes a ≡ turned
      after-task =
          rw ((==_iff a a).1 refl)
            (ap (λ (t : Task). record t { runs = t.runs + 1; state = verdict alive }) step.task)

      switched :
          switch_to_task run_step a (set_state a TaskState.executing k) ≡ done (after a alive k2)
      switched =
          switch_to_task-returns a (set_state a TaskState.executing k) k2 alive
            (marked-IsSeated seat) step.returned
            (subst (λ (n : ℕ). n + 1 < u64_mod) (sym (ap (λ (t : Task). t.runs) step.task)) room)

      pub after-IsConsistent : IsConsistent (after a alive k2).table
      after-IsConsistent = unfenced-IsConsistent k2.table step.kept

      after-template :
          valid_for
            ((after a alive k2).boxes a).preempt
            ((after a alive k2).boxes a).stack.bottom
            ((after a alive k2).boxes a).stack.top
          ≡ true
      after-template =
          ap (λ (t : Task). valid_for t.preempt t.stack.bottom t.stack.top) after-task
          ∙ seat.template

      after-frame_ok :
          frame_ok ((after a alive k2).boxes a).slot (after a alive k2).table ≡ done true
      after-frame_ok =
          ap (λ (t : Task). frame_ok t.slot (after a alive k2).table) after-task
          ∙ frame_ok-occupied (after a alive k2).table (k.boxes a).slot seat.slot_lt
              after-IsConsistent
          ∙ ap (λ (used : ℕ). done (occupied used (k.boxes a).slot)) step.occupancy
          ∙ ap done seat.registered

      pub run_checked-returns : run_checked run_step a k ≡ done (after a alive k2)
      unfolding run_checked
      run_checked-returns = rw (switched, run_checked) (rw (after-template, after-frame_ok))
