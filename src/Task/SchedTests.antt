-- ===== src/Task/SchedTests.antt =====
-- Runs of the schedulers, and the instances of their theorems there.
use rusty_core.Prelude.{
  ℕ, ◌≡◌, refl, sym, subst, ◌∙◌, true, false, some, [], ◌∷◌, arith, ◌==◌, done, update, max,
  if◌then◌else◌, if◌then◌else◌,
}
use rusty_core.Preempt.Frame.{FullFrame, zero_frame, valid_for, preempt_magic}
use rusty_core.Preempt.Bitmap.{occupied, occupy}
use rusty_core.Preempt.Table.{Table, boot_table, register_task, set_slot_bounds}
use rusty_core.Preempt.Table.Lifecycle.{
  IsConsistent, boot_table-IsConsistent, admit, admit-IsConsistent,
}
use rusty_core.Task.Stack.{stack_canary}
use rusty_core.Task.Spawn.{TaskState, Task}
use rusty_core.Task.Run.{Kernel, Sched, new_sched, parked}
use rusty_core.Task.Cfs.{pick_min, wake, scan}
use rusty_core.Task.Cfs.Turns.{IsFloor, wake-IsFloor}

zero_free : occupied 0 0 ≡ false
unfolding occupied
zero_free = refl

abbrev pub fresh_frame : FullFrame
fresh_frame = record zero_frame {
  rsp = 0x2fff8;
  rip = 0x400;
  cs = 8;
  rflags = 0x202;
  magic = preempt_magic;
}

pub fresh_frame-valid : valid_for fresh_frame 0x10000 0x30000 ≡ true
unfolding valid_for
fresh_frame-valid = refl

abbrev pub seated_table : Table
seated_table = record boot_table {
  task_frames = update boot_table.task_frames 0 fresh_frame;
  slot_used = 1;
  bounds = update boot_table.bounds 0 (0x10000, 0x30000);
}

admitted : admit 0 fresh_frame 0x10000 0x30000 boot_table ≡ done seated_table
unfolding admit register_task set_slot_bounds occupied occupy
admitted = refl

zero_used : occupied 1 0 ≡ true
unfolding occupied
zero_used = refl

pub same_table : {t u : Table} → done t ≡ done u → t ≡ u
same_table e = cc

pub seated_table-IsConsistent : IsConsistent seated_table
seated_table-IsConsistent =
    let (t, e, c, bits) =
      admit-IsConsistent boot_table 0 0x10000 0x30000 fresh_frame boot_table-IsConsistent
        (omega arith) zero_free (omega arith) (omega arith) fresh_frame-valid in
    subst IsConsistent (same_table (sym e ∙ admitted)) c

-- The task of box 200, on slot 0.
abbrev pub worker : Task
worker = record {
  id = 1;
  name = [];
  state = TaskState.ready;
  runs = 4;
  vruntime = 200;
  weight = 2048;
  stack = record { top = 0x30000; bottom = 0x10000 };
  ctx = record { rsp = 0x2ffc0 };
  preempt = fresh_frame;
  slot = 0;
  step = 0;
}

-- Box 100 holds a sleeper.
abbrev napper : Task
napper = record worker { id = 2; state = TaskState.sleeping 50; vruntime = 0; slot = 1 }

abbrev two_tasks : ℕ → Task
two_tasks a = if a == 100 then napper else worker

abbrev quiet : Kernel Unit
quiet = record {
  table = seated_table;
  task_ptrs = λ idx. if idx == 0 then some 200 else some 100;
  boxes = two_tasks;
  mem = λ _. stack_canary;
  rsp0 = 0;
  captured = tt;
}

abbrev both : Sched
both = record new_sched { ready = 100 ∷ 200 ∷ [] }

wake-IsFloor_example :
    (floor : ℕ) × IsFloor quiet floor (200 ∷ [])
    × ((wake 100 (record new_sched { ready = 200 ∷ [] }) quiet).boxes 100
        ≡ record napper { vruntime = max 0 floor; state = TaskState.ready })
wake-IsFloor_example = wake-IsFloor quiet 100 50 (record new_sched { ready = 200 ∷ [] }) refl

worker_picked : pick_min both quiet ≡ some 1
unfolding pick_min scan parked
worker_picked = refl
