-- ===== src/Boot/Demo.antt =====
-- The scheduler demo of `kernel_main` in kernel/src/main.rs: the four tasks, their closures, and the run of
-- the driver over them.
mod Tests
use rusty_core.Prelude.{
  ℕ, zero, suc, ◌+◌, Bool, true, false, not, List, [], ◌∷◌, if◌then◌else◌, ltb, ◌==◌, update,
  Outcome, done, panics, running, ◌>>=◌, ◌>>◌, assert, add_u64,
}
use rusty_core.Preempt.Stub.{Cpu, Machine, stub}
use rusty_core.Preempt.Table.{Table}
use rusty_core.Task.Spawn.{Task, Site, with_weight}
use rusty_core.Task.Spawn
use rusty_core.Task.Run.{Kernel, Sched, new_sched, next_id}
use rusty_core.Task.Ledger.{ledger}
use rusty_core.Task.RoundRobin.{alive}
use rusty_core.Task.RoundRobin
use rusty_core.Task.Cfs
use rusty_core.Boot.Driver.{
  Policy, Run, await, drive, first_driver, napper_name, same_name, sched_fair_runs,
}

-- What the closures own: the count of each stepping task, by the number of its closure, and the flag of the
-- napper.
pub record Captured : Type 0 where
  pub steps : ℕ → ℕ
  pub woke : Bool

-- The napper's closure has number 0, that of a stepping task the task's id.
abbrev pub napper_step : ℕ
napper_step = 0

abbrev pub alpha : List ℕ
alpha = b'a' ∷ b'l' ∷ b'p' ∷ b'h' ∷ b'a' ∷ []

abbrev pub beta : List ℕ
beta = b'b' ∷ b'e' ∷ b't' ∷ b'a' ∷ []

abbrev pub gamma : List ℕ
gamma = b'g' ∷ b'a' ∷ b'm' ∷ b'm' ∷ b'a' ∷ []

-- A closure: the first step of a task waits for a fresh tick, and the fifth is its last; the napper is
-- done at once.
unfoldable pub run_step :
    (Kernel Captured → Kernel Captured) → ℕ → ℕ → Kernel Captured → Outcome (Bool × Kernel Captured)
unfolding await
run_step spin spins closure k =
    if closure == napper_step
    then done (false, record k { captured = record k.captured { woke = true } })
    else (do
      n ← add_u64 (k.captured.steps closure) 1
      let counted = record k {
        captured = record k.captured { steps = update k.captured.steps closure n };
      }
      waited ← if n == 1 then await spin spins counted.table.apic_ticks counted else done counted
      done (ltb n sched_fair_runs, waited))

-- What the two policies do at a spawn: under `sched-cfs` gamma carries double weight.
pub record Spawner : Type 0 where
  pub spawn : ℕ → Task → Sched → Kernel Captured → Outcome (Sched × Kernel Captured)
  pub weigh : Task → Outcome Task

-- `box` is where the heap puts the task, and `site` what its constructor meets.
module _ (spawner : Spawner) (box : ℕ → ℕ) (site : ℕ → Site) where
  unfoldable pub spawn_all :
      List (List ℕ) → Sched → Kernel Captured → Outcome (Sched × Kernel Captured)
  unfolding next_id
  spawn_all [] s k = done (s, k)
  spawn_all (name ∷ names) s k = do
    (id, s1) ← next_id s
    (task, mem, table) ← Spawn.new id name id (site id) k.mem k.table
    weighed ← spawner.weigh task
    (s2, k2) ← spawner.spawn (box id) weighed s1 (record k { mem = mem; table = table })
    spawn_all names s2 k2

  unfoldable pub spawn_napper : Sched → Kernel Captured → Outcome (Sched × Kernel Captured)
  unfolding next_id
  spawn_napper s k = do
    (id, s1) ← next_id s
    wake_at ← add_u64 k.table.apic_ticks 20
    (task, mem, table) ←
        Spawn.new_sleeping id napper_name wake_at napper_step (site id) k.mem k.table
    spawner.spawn (box id) task s1 (record k { mem = mem; table = table })

  unfoldable pub spawn_demo : Sched → Kernel Captured → Outcome (Sched × Kernel Captured)
  unfolding spawn_all spawn_napper
  spawn_demo s k = do (s2, k2) ← spawn_all (alpha ∷ beta ∷ gamma ∷ []) s k; spawn_napper s2 k2

-- A LAPIC tick through the stub; `frames` is the address of `TASK_FRAMES`, and `cpu` what is interrupted.
unfoldable pub lapic_tick : ℕ → Cpu → Kernel Captured → Kernel Captured
unfolding stub
lapic_tick frames cpu k = record k {
  table = (stub frames (record { cpu = cpu; table = k.table; eois = [] })).table;
}

module _ (idle : Kernel Captured → Kernel Captured) (naps : ℕ) where
  unfoldable pub round_robin : Policy Captured
  round_robin = record {
    schedule_once = RoundRobin.schedule_once (run_step idle naps);
    alive = alive;
    ledger = ledger;
  }

  unfoldable pub cfs : Policy Captured
  cfs = record {
    schedule_once = Cfs.schedule_once (run_step idle naps);
    alive = alive;
    ledger = ledger;
  }

abbrev pub rr_spawner : Spawner
rr_spawner = record { spawn = RoundRobin.spawn; weigh = λ task. done task }

abbrev pub cfs_spawner : Spawner
cfs_spawner = record {
  spawn = Cfs.spawn;
  weigh = λ task. if same_name task.name gamma then with_weight 2048 task else done task;
}

-- The guards stop the driver within as many passes.
abbrev pub passes : ℕ
passes = 10301

unfoldable pub sched_demo :
    Spawner
    → Policy Captured
    → (Kernel Captured → Kernel Captured)
    → ℕ
    → (ℕ → ℕ)
    → (ℕ → Site)
    → Kernel Captured
    → Outcome (Run Captured)
unfolding spawn_demo drive first_driver
sched_demo spawner policy hlt naps box site k = do
  (s, k2) ← spawn_demo spawner box site new_sched k
  drive policy hlt naps passes (first_driver k2) s k2
