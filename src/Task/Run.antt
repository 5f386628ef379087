-- ===== src/Task/Run.antt =====
-- One turn of a task in kernel/src/task.rs: the slot table of pointers, the trampoline's loop body, and
-- what both schedulers do around a switch. A `Box<Task>` is the address of its task in the store
-- `boxes`. `run_step` is what the closures do, with the interrupts that arrive meanwhile.
pub mod Turn
pub mod Settle
pub mod Jobs
pub mod Steps
use rusty_core.Prelude.{
  ℕ, zero, suc, ◌+◌, ◌-◌, ◌<◌, ◌≤◌, ◌≡◌, ◌≢◌, refl, Bool, true, false, Option, none, some, List, [],
  ◌∷◌, arith, if◌then◌else◌, leb, ltb, ◌==◌, update, Outcome, done, panics, running, ◌>>=◌, ◌>>◌,
  assert, add_u64,
}
use rusty_core.Prelude.Vecs.{push}
use rusty_core.Preempt.Frame.{valid_for}
use rusty_core.Preempt.Table.{
  Table, max_tasks, set_preemptible, set_current, frame_ok, unregister_task,
}
use rusty_core.Task.Stack.{TaskStack, canary_ok}
use rusty_core.Memory.Mapping.{virt_addr}
use rusty_core.Task.Spawn.{TaskState, Task}

pub record Kernel (σ : Type 0) : Type 0 where
  pub table : Table
  pub task_ptrs : ℕ → Option ℕ
  pub boxes : ℕ → Task
  pub mem : ℕ → ℕ
  pub rsp0 : ℕ
  pub captured : σ

-- Both schedulers keep a queue of boxes, the ledger lines of the finished tasks, and the next id.
pub record Sched : Type 0 where
  pub ready : List ℕ
  pub finished_runs : List (ℕ × List ℕ × ℕ)
  pub next_id : ℕ

abbrev pub new_sched : Sched
new_sched = record { ready = []; finished_runs = []; next_id = 1 }

unfoldable pub next_id : Sched → Outcome (ℕ × Sched)
next_id s = do after ← add_u64 s.next_id 1; done (s.next_id, record s { next_id = after })

-- The state after a step that returned whether the task stays alive.
abbrev pub verdict : Bool → TaskState
verdict true = TaskState.ready
verdict false = TaskState.finished

module _ {σ : Type 0} where
  unfoldable pub task_at : ℕ → Kernel σ → Option ℕ
  task_at idx k = if leb max_tasks idx then none else k.task_ptrs idx

  unfoldable pub set_task_ptr : ℕ → ℕ → Kernel σ → Outcome (Kernel σ)
  set_task_ptr idx task k = do
    assert (ltb idx max_tasks)
    done (record k { task_ptrs = update k.task_ptrs idx (some task) })

  unfoldable pub clear_task_ptr : ℕ → Kernel σ → Kernel σ
  clear_task_ptr idx k =
      if ltb idx max_tasks then record k { task_ptrs = update k.task_ptrs idx none } else k

  unfoldable pub current_task : Kernel σ → Outcome ℕ
  unfolding task_at
  current_task k = elim (task_at k.table.current_idx k) [ some a ↦ done a | none ↦ panics ]

  unfoldable pub set_task : ℕ → Task → Kernel σ → Kernel σ
  set_task a task k = record k { boxes = update k.boxes a task }

  unfoldable pub set_state : ℕ → TaskState → Kernel σ → Kernel σ
  set_state a state k = record k { boxes = update k.boxes a (record (k.boxes a) { state = state }) }

  unfoldable pub fence : Bool → Kernel σ → Kernel σ
  unfolding set_preemptible
  fence on k = record k { table = set_preemptible on k.table }

  module _ (run_step : ℕ → Kernel σ → Outcome (Bool × Kernel σ)) where
    -- The step, behind the fence, and its entry in the books of the task.
    unfoldable pub take_step : ℕ → Kernel σ → Outcome (Kernel σ)
    unfolding fence set_task
    take_step a k = do
      (alive, k2) ← run_step (k.boxes a).step (fence true k)
      runs ← add_u64 (k2.boxes a).runs 1
      done
          (fence false (set_task a (record (k2.boxes a) { runs = runs; state = verdict alive }) k2))

    -- One round of the loop in `task_trampoline_body`, from the resumption to the switch away. A trashed
    -- canary halts.
    unfoldable pub trampoline_round : Kernel σ → Outcome (Kernel σ)
    unfolding current_task canary_ok take_step
    trampoline_round k = do
      a ← current_task k
      let step = take_step a k
      if canary_ok (k.boxes a).stack k.mem then step else running

    unfoldable pub switch_to_task : ℕ → Kernel σ → Outcome (Kernel σ)
    unfolding trampoline_round set_current virt_addr
    switch_to_task a k = do
      let task = k.boxes a
      top ← virt_addr task.stack.top
      k2 ← trampoline_round (record k { table = set_current task.slot k.table; rsp0 = top })
      done (record k2 { table = set_current max_tasks k2.table })

    -- The switch, then the checks that both schedulers make on their return.
    unfoldable pub run_checked : ℕ → Kernel σ → Outcome (Kernel σ)
    unfolding switch_to_task set_state frame_ok
    run_checked a k = do
      k2 ← switch_to_task a (set_state a TaskState.executing k)
      let task = k2.boxes a
      assert (valid_for task.preempt task.stack.bottom task.stack.top)
      ok ← frame_ok task.slot k2.table
      assert ok
      done k2

  -- The end of a finished task: the pointer, the slot, and the ledger line.
  unfoldable pub retire : ℕ → Sched → Kernel σ → Outcome (Sched × Kernel σ)
  unfolding clear_task_ptr unregister_task
  retire a s k = do
    let task = k.boxes a
    let cleared = clear_task_ptr task.slot k
    table ← unregister_task task.slot cleared.table
    done (
      record s { finished_runs = push s.finished_runs (task.id, task.name, task.runs) },
      record cleared { table = table },
    )

  -- Back in the queue, or off it.
  unfoldable pub settle : ℕ → Sched → Kernel σ → Outcome (Sched × Kernel σ)
  unfolding retire
  settle a s k = elim (k.boxes a).state [
    | TaskState.ready ↦ done (record s { ready = push s.ready a }, k)
    | _ ↦ retire a s k
  ]

  -- A sleeper whose tick has not come.
  unfoldable pub parked : ℕ → Kernel σ → Bool
  parked a k = elim (k.boxes a).state [
    | TaskState.sleeping until_tick ↦ ltb k.table.apic_ticks until_tick
    | _ ↦ false
  ]
