-- ===== src/Boot/Driver.antt =====
-- The loop of `kernel_main` in kernel/src/main.rs that drives the scheduler, and the ledger check behind
-- it.
pub mod Ends
mod Tests
use rusty_core.Prelude.{
  ℕ, zero, suc, ◌+◌, Bool, true, false, not, ◌&&◌, List, [], ◌∷◌, if◌then◌else◌, ltb, ◌==◌, Outcome,
  done, panics, running, ◌>>=◌,
}
use rusty_core.Task.Run.{Kernel, Sched}
use rusty_core.Task.Ledger.{Line}

abbrev pub sched_runaway_guard : ℕ
sched_runaway_guard = 100

abbrev pub sched_fair_runs : ℕ
sched_fair_runs = 5

-- The operations of `Scheduler` that the loop calls.
pub record Policy (σ : Type 0) : Type 0 where
  pub schedule_once : Sched → Kernel σ → Outcome (Bool × Sched × Kernel σ)
  pub alive : Sched → ℕ
  pub ledger : Sched → Kernel σ → List Line

-- The variables of the loop.
pub record Driver : Type 0 where
  pub schedules : ℕ
  pub asleep_passes : ℕ
  pub preempts : ℕ
  pub last_switches : ℕ
  pub last_tick : ℕ

-- The four halts after "sched FAILED", and the last line of the boot.
pub data End : Type 0 where
  asleep_forever runaway silent_stub unfair online : End

-- The bytes of a name.
abbrev pub napper_name : List ℕ
napper_name = b'n' ∷ b'a' ∷ b'p' ∷ b'p' ∷ b'e' ∷ b'r' ∷ []

unfoldable pub same_name : List ℕ → List ℕ → Bool
same_name [] [] = true
same_name (x ∷ xs) (y ∷ ys) = (x == y) && same_name xs ys
same_name [] (y ∷ ys) = false
same_name (x ∷ xs) [] = false

-- The runs that the ledger has to show.
unfoldable pub want : List ℕ → ℕ
unfolding same_name
want name = if same_name name napper_name then 1 else sched_fair_runs

unfoldable pub fair : List Line → Bool
unfolding want
fair [] = true
fair ((id, name, runs) ∷ lines) = (runs == want name) && fair lines

-- One pass: whether the loop goes on.
pub data Next (σ : Type 0) : Type 0 where
  stop : End → Driver → Sched → Kernel σ → Next σ
  go_on : Driver → Sched → Kernel σ → Next σ

-- What the loop returns.
abbrev pub Run : Type 0 → Type 0
Run σ = End × Driver × Sched × Kernel σ

unfoldable pub resume :
    {σ : Type 0} → (Driver → Sched → Kernel σ → Outcome (Run σ)) → Next σ → Outcome (Run σ)
resume again (stop e d s k) = done (e, d, s, k)
resume again (go_on d s k) = again d s k

-- Wait until the tick counter differs from `last`: `idle` is what the interrupts leave that arrive during
-- a `hlt`, or during a turn of a busy loop.
unfoldable pub await : {σ : Type 0} → (Kernel σ → Kernel σ) → ℕ → ℕ → Kernel σ → Outcome (Kernel σ)
await idle zero last k = running
await idle (suc fuel) last k = elim (k.table.apic_ticks == last) [
  | true ↦ await idle fuel last (idle k)
  | false ↦ done k
]

module _ {σ : Type 0} (policy : Policy σ) (hlt : Kernel σ → Kernel σ) where
  -- The counters after a schedule: a yank shows in the switches.
  unfoldable pub counted : Driver → Kernel σ → Driver
  counted d k = record d {
    schedules = d.schedules + 1;
    asleep_passes = 0;
    preempts = if k.table.preempt_switches == d.last_switches then d.preempts else d.preempts + 1;
    last_switches = k.table.preempt_switches;
  }

  unfoldable pub finish : Driver → Sched → Kernel σ → End
  unfolding fair
  finish d s k =
      if d.preempts == 0
      then End.silent_stub
      else if fair (policy.ledger s k)
      then End.online
      else End.unfair

  unfoldable pub judged : Bool → Driver → Sched → Kernel σ → Next σ
  unfolding counted
  judged false d s k =
      if ltb sched_runaway_guard (d.asleep_passes + 1)
      then stop End.asleep_forever (record d { asleep_passes = d.asleep_passes + 1 }) s k
      else go_on (record d { asleep_passes = d.asleep_passes + 1 }) s k
  judged true d s k =
      if ltb sched_runaway_guard (d.schedules + 1)
      then stop End.runaway (counted d k) s k
      else go_on (counted d k) s k

  -- `naps` bounds the wait for a tick.
  unfoldable pub turn : ℕ → Driver → Sched → Kernel σ → Outcome (Next σ)
  unfolding await judged
  turn naps d s k = do
    k1 ← await hlt naps d.last_tick k
    (ran, s2, k2) ← policy.schedule_once s k1
    done (judged ran (record d { last_tick = k1.table.apic_ticks }) s2 k2)

  unfoldable pub drive : ℕ → ℕ → Driver → Sched → Kernel σ → Outcome (Run σ)
  unfolding turn finish resume
  drive naps zero d s k = running
  drive naps (suc fuel) d s k = elim (policy.alive s == 0) [
    | true ↦ done (finish d s k, d, s, k)
    | false ↦ turn naps d s k >>= resume (drive naps fuel)
  ]

-- The counters at the start.
unfoldable pub first_driver : {σ : Type 0} → Kernel σ → Driver
first_driver k = record {
  schedules = 0;
  asleep_passes = 0;
  preempts = 0;
  last_switches = k.table.preempt_switches;
  last_tick = k.table.apic_ticks;
}
