-- ===== src/Task/Tests.antt =====
-- The instances of the theorems on the switch, the stacks and the construction of tasks.
use rusty_core.Prelude.{
  ℕ, update, Outcome, inl, ◌-◌, ◌<◌, ◌≤◌, ◌≡◌, inr, refl, true, false, ◌||◌, [], arith, ◌==◌, done,
}
use rusty_core.Preempt.Frame.{valid_for}
use rusty_core.Preempt.Bitmap.{occupied}
use rusty_core.Preempt.Table.{Table, max_tasks, boot_table}
use rusty_core.Preempt.Table.Lifecycle.{IsConsistent, boot_table-IsConsistent}
use rusty_core.Task.Switch.{Context, Core, context_switch, save, init_task_context}
use rusty_core.Task.Switch.RoundTrip.{no_registers, context_switch-resumes}
use rusty_core.Task.Switch.{write_zeros}
use rusty_core.Task.Switch.Visit.{
  first_statics, Statics, first_visit, back_home, IsWork, first_visit-returns,
}
use rusty_core.Task.Spawn.{TaskState, Task, Site, build}
use rusty_core.Task.Spawn.Admission.{build-admits}

-- A side that stands at 0x8000, and another at 0x20000.
abbrev caller : Core
caller = record {
  callee = record { rbp = 1; rbx = 2; r12 = 3; r13 = 4; r14 = 5; r15 = 6 };
  rsp = 0x8000;
  rip = 0x100;
  mem = λ a. a;
}

abbrev other : Core
other = record {
  callee = no_registers;
  rsp = 0x20000;
  rip = 0x200;
  mem = (context_switch (record { rsp = 0x1f000 }) caller).1.mem;
}

context_switch-resumes_example :
    (context_switch (context_switch (record { rsp = 0x1f000 }) caller).0 other).1
    ≡ record (save other) { callee = caller.callee; rip = 0x8000; rsp = 0x8008 }
context_switch-resumes_example =
    context_switch-resumes caller other (record { rsp = 0x1f000 }) (omega arith) (omega arith)
      (omega arith) (omega arith) (inr (omega arith)) refl

-- A driver that visits a fresh task with its top at 0x30000.
abbrev driver : Core
driver = record caller {
  mem = update (update (write_zeros 6 0x2ffc0 (λ a. 0)) 0x2fff0 0x400) 0x2fff8 0;
}

abbrev entered : Core
entered = record (save driver) { callee = no_registers; rip = 0x400; rsp = 0x30000 - 8 }

-- The task goes down its stack by a page.
abbrev work : Core → Outcome Core
work c = done (record c { rsp = c.rsp - 4096 })

driver-IsWork : IsWork work driver entered (record entered { rsp = 0x2eff8 })
driver-IsWork = record {
  worked = refl;
  above = omega arith;
  below = omega arith;
  apart = inr (omega arith);
  frame = refl;
}

first_visit-returns_example :
    (ctx : Context) × (mem' : ℕ → ℕ) × (init_task_context 0x400 0x30000 (λ a. 0) ≡ done (ctx, mem'))
    × (driver.mem ≡ mem'
        → (s' : Statics) × (first_visit work ctx driver first_statics
            ≡ done (
              record { rsp = (save (record entered { rsp = 0x2eff8 })).rsp },
              back_home driver (record entered { rsp = 0x2eff8 }),
              s',
            )))
first_visit-returns_example =
    first_visit-returns work 0x400 0x30000 (λ a. 0) driver (record entered { rsp = 0x2eff8 })
      first_statics refl (omega arith) (omega arith) (omega arith) (omega arith) (inl (omega arith))
      driver-IsWork

abbrev site : Site
site = record { trampoline = 0x400; cs = 8; raw = 0x10001 }

zero_free : occupied 0 0 ≡ false
unfolding occupied
zero_free = refl

-- A backing store in the heap of the kernel.
abbrev on_heap : Site
on_heap = record site { raw = 0xFFFF_9000_0000_1008 }

build-admits_example :
    (task : Task) × (mem' : ℕ → ℕ) × (t' : Table) × (build TaskState.ready 1 [] 0 on_heap
        (λ a. 0)
        boot_table
      ≡ done (task, mem', t'))
    × IsConsistent t'
    × (task.state ≡ TaskState.ready)
    × (task.slot ≤ 0)
    × (valid_for task.preempt task.stack.bottom task.stack.top ≡ true)
    × (occupied 0 task.slot ≡ false)
    × ((j : ℕ) → j < max_tasks → occupied t'.slot_used j ≡ ((task.slot == j) || occupied 0 j))
build-admits_example =
    build-admits TaskState.ready 1 [] 0 on_heap (λ a. 0) boot_table (omega arith)
      (inr (omega arith, omega arith)) boot_table-IsConsistent 0 (omega arith) zero_free
