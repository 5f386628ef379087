-- ===== src/Boot/Demo/Tests.antt =====
-- The demo, run from boot under both policies.
use rusty_core.Prelude.{
  ℕ, ◌+◌, ◌-◌, ◌*◌, ◌≡◌, refl, false, none, Option, some, List, [], ◌∷◌, Outcome, done, panics,
  running,
}
use rusty_core.Prelude.Vecs
use rusty_core.Preempt.Frame.{zero_frame, fresh, valid_for}
use rusty_core.Preempt.Bitmap.{occupied, occupy, vacate}
use rusty_core.Preempt.Table.{
  boot_table, alloc_slot, register_task, set_slot_bounds, slot_bounds, frame_ok, unregister_task,
}
use rusty_core.Preempt.Stub.{
  Cpu, push_all, pop_all, stash, stashed, yanks, tick, skipped, end_of_interrupt,
}
use rusty_core.Preempt.Stub
use rusty_core.Task.Switch.{init_task_context, write_zeros}
use rusty_core.Task.Stack.{canary_ok}
use rusty_core.Task.Stack
use rusty_core.Task.Spawn
use rusty_core.Task.Spawn.{TaskState, Task, Site}
use rusty_core.Task.Run.{
  Kernel, set_task_ptr, clear_task_ptr, current_task, task_at, run_checked, retire, settle, parked,
  next_id,
}
use rusty_core.Task.Spawn.{with_weight}
use rusty_core.Task.Cfs
use rusty_core.Task.RoundRobin
use rusty_core.Task.Ledger.{Line, ledger, sort_by_id, insert}
use rusty_core.Boot.Driver.{Policy, End, Run, napper_name, same_name, fair, want}
use rusty_core.Boot.Demo.{
  Captured, round_robin, cfs, rr_spawner, cfs_spawner, lapic_tick, sched_demo, alpha, beta, gamma,
  run_step,
}

abbrev cpu : Cpu
cpu = record {
  gprs = record {
    r15 = 0;
    r14 = 0;
    r13 = 0;
    r12 = 0;
    r11 = 0;
    r10 = 0;
    r9 = 0;
    r8 = 0;
    rdi = 0;
    rsi = 0;
    rbp = 0;
    rbx = 0;
    rdx = 0;
    rcx = 0;
    rax = 0;
  };
  rsp = 0x9000_1000;
  stack = 0x40_0000 ∷ 8 ∷ 0x202 ∷ [];
}

abbrev nobody : Task
nobody = record {
  id = 0;
  name = [];
  state = TaskState.finished;
  runs = 0;
  vruntime = 0;
  weight = 1;
  stack = record { top = 0; bottom = 0 };
  ctx = record { rsp = 0 };
  preempt = zero_frame;
  slot = 0;
  step = 0;
}

abbrev booted : Kernel Captured
booted = record {
  table = boot_table;
  task_ptrs = λ _. none;
  boxes = λ _. nobody;
  mem = λ _. 0;
  rsp0 = 0;
  captured = record { steps = λ _. 0; woke = false };
}

abbrev box : ℕ → ℕ
box id = 1000 + id

abbrev site : ℕ → Site
site id = record { trampoline = 0x40_0000; cs = 8; raw = 0x9000_0000 + id * 0x4_0000 }

-- A tick finds the running task a page below the top of its stack.
abbrev lapic : Kernel Captured → Kernel Captured
lapic k = lapic_tick 0x5000 (record cpu { rsp = k.rsp0 - 0x1000 }) k

-- How a run ended, and its ledger.
report : Policy Captured → Outcome (Run Captured) → Option (End × List Line)
report policy (done (e, d, s, k)) = some (e, policy.ledger s k)
report policy panics = none
report policy running = none

abbrev expected : List Line
expected = (1, alpha, 5) ∷ (2, beta, 5) ∷ (3, gamma, 5) ∷ (4, napper_name, 1) ∷ []

-- Round robin comes online, with five runs for each task and one for the napper.
demo_rr :
    report
      (round_robin lapic 2)
      (sched_demo rr_spawner (round_robin lapic 2) lapic 2 box site booted)
    ≡ some (End.online, expected)
unfolding report sched_demo round_robin lapic_tick RoundRobin.schedule_once RoundRobin.spawn
    run_step next_id Spawn.new Spawn.new_sleeping Stack.new init_task_context write_zeros fresh
    valid_for alloc_slot register_task set_slot_bounds slot_bounds frame_ok unregister_task occupied
    occupy vacate canary_ok Vecs.push set_task_ptr clear_task_ptr current_task task_at run_checked
    retire settle parked ledger sort_by_id insert push_all pop_all Stub.push Stub.pop stash stashed
    yanks tick skipped end_of_interrupt fair want same_name
demo_rr = refl

-- So does Cfs, with double weight for gamma.
demo_cfs :
    report (cfs lapic 2) (sched_demo cfs_spawner (cfs lapic 2) lapic 2 box site booted)
    ≡ some (End.online, expected)
unfolding report sched_demo cfs lapic_tick Cfs.schedule_once Cfs.spawn Cfs.pick_min Cfs.remove_at
    Cfs.wake Cfs.accrue with_weight run_step next_id Spawn.new Spawn.new_sleeping Stack.new
    init_task_context write_zeros fresh valid_for alloc_slot register_task set_slot_bounds
    slot_bounds frame_ok unregister_task occupied occupy vacate canary_ok Vecs.push set_task_ptr
    clear_task_ptr current_task task_at run_checked retire settle parked ledger sort_by_id insert
    push_all pop_all Stub.push Stub.pop stash stashed yanks tick skipped end_of_interrupt fair want
    same_name
demo_cfs = refl
