-- ===== src/Boot/Driver/Tests.antt =====
-- The driver over a round robin whose only task never wakes.
use rusty_core.Prelude.{ℕ, ◌<◌, ◌≡◌, Bool, true, some, [], ◌∷◌, Outcome, done, u64_mod}
use rusty_core.Preempt.Frame.{zero_frame}
use rusty_core.Preempt.Table.{boot_table}
use rusty_core.Preempt.Stub.{tick}
use rusty_core.Task.Spawn.{TaskState, Task}
use rusty_core.Task.Run.{Kernel, Sched, new_sched}
use rusty_core.Task.RoundRobin.{schedule_once, alive}
use rusty_core.Task.Ledger.{ledger}
use rusty_core.Boot.Driver.{Policy}
use rusty_core.Boot.Driver.Ends.{Ends}

abbrev onwards : ℕ → Kernel Unit → Outcome (Bool × Kernel Unit)
onwards n k = done (true, k)

abbrev policy : Policy Unit
policy = record { schedule_once = schedule_once onwards; alive = alive; ledger = ledger }

abbrev hlt : Kernel Unit → Kernel Unit
hlt k = record k { table = tick k.table }

-- The queue holds box 100, whose task sleeps until the counter ends.
record IsAsleep (s : Sched) (k : Kernel Unit) : Type 0 where
  queued : s.ready ≡ 100 ∷ []
  asleep : (k.boxes 100).state ≡ TaskState.sleeping u64_mod
  early : k.table.apic_ticks < u64_mod

abbrev sleeper : Task
sleeper = record {
  id = 1;
  name = [];
  state = TaskState.sleeping u64_mod;
  runs = 0;
  vruntime = 0;
  weight = 1024;
  stack = record { top = 0x30000; bottom = 0x10000 };
  ctx = record { rsp = 0x2ffc0 };
  preempt = zero_frame;
  slot = 0;
  step = 0;
}

abbrev kernel : Kernel Unit
kernel = record {
  table = boot_table;
  task_ptrs = λ _. some 100;
  boxes = λ _. sleeper;
  mem = λ _. 0;
  rsp0 = 0;
  captured = tt;
}

abbrev queue : Sched
queue = record new_sched { ready = 100 ∷ [] }
