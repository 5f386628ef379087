-- ===== src/Boot/Driver/Ends.antt =====
-- The driver always stops, and what each way to stop says.
use rusty_core.Prelude.{ℕ, zero, suc, ◌+◌, ◌-◌, ◌*◌, ◌<◌, ◌≤◌, ◌≡◌, ◌≢◌, Bool, Outcome, done}
use rusty_core.Prelude.Vecs.{All}
use rusty_core.Task.Run.{Kernel, Sched}
use rusty_core.Task.Ledger.{Line}
use rusty_core.Boot.Driver.{Policy, Driver, End, Next, stop, go_on, napper_name, Run}

-- One run of the napper, and five of every other task.
abbrev pub IsWanted : Line → Type 0
IsWanted line = (line.1 ≡ napper_name → line.2 ≡ 1) × (line.1 ≢ napper_name → line.2 ≡ 5)

module _ {σ : Type 0} (policy : Policy σ) (hlt : Kernel σ → Kernel σ) where
  -- What the processor looks like after `n` wake-ups.
  abbrev pub slept : ℕ → Kernel σ → Kernel σ
  slept zero k = k
  slept (suc n) k = slept n (hlt k)

  -- A property of the scheduler and the kernel that a turn and a halt keep, under which a turn returns and
  -- the tick counter moves within `naps` wake-ups.
  pub record IsSound (naps : ℕ) (I : Sched → Kernel σ → Type 0) : Type 0 where
    pub turns :
        (s : Sched) (k : Kernel σ)
        → I s k
        → (ran : Bool) × (s2 : Sched) × (k2 : Kernel σ) × (policy.schedule_once s k
            ≡ done (ran, s2, k2))
          × I s2 k2
    pub halts : (s : Sched) (k : Kernel σ) → I s k → I s (hlt k)
    pub ticks :
        (s : Sched) (k : Kernel σ)
        → I s k
        → (n : ℕ) × (n < naps) × ((slept n k).table.apic_ticks ≢ k.table.apic_ticks)

  -- What each ending says of the counters, the scheduler and the ledger.
  abbrev pub Says : End → Driver → Sched → Kernel σ → Type 0
  Says End.asleep_forever d s k = d.asleep_passes ≡ 101
  Says End.runaway d s k = d.schedules ≡ 101
  Says End.silent_stub d s k = (policy.alive s ≡ 0) × (d.preempts ≡ 0)
  Says End.unfair d s k =
      (policy.alive s ≡ 0) × (0 < d.preempts) × ¬ (All IsWanted (policy.ledger s k))
  Says End.online d s k =
      (policy.alive s ≡ 0)
      × (0 < d.preempts)
      × (d.schedules ≤ 100)
      × All IsWanted (policy.ledger s k)

  -- Passes left before one of the guards stops the loop.
  abbrev left : Driver → ℕ
  left d = (100 - d.schedules) * 102 + (100 - d.asleep_passes)

  pub record IsGuarded (d : Driver) : Type 0 where
    pub schedules : d.schedules ≤ 100
    pub asleep : d.asleep_passes ≤ 100

  -- A pass either stops as its ending says, or goes on with fewer passes left.
  abbrev Passes : Driver → Next σ → Type 0
  Passes d (stop e d2 s2 k2) = Says e d2 s2 k2
  Passes d (go_on d2 s2 k2) = IsGuarded d2 × (left d2 < left d)

  -- Where a pass leaves the scheduler.
  abbrev scheduler : Next σ → Sched
  scheduler (stop e d s k) = s
  scheduler (go_on d s k) = s

  abbrev kernel : Next σ → Kernel σ
  kernel (stop e d s k) = k
  kernel (go_on d s k) = k

  module _ (naps : ℕ) (I : Sched → Kernel σ → Type 0) (sound : IsSound naps I) where
    -- The run comes to an end that says what it has to.
    abbrev pub Ends : Outcome (Run σ) → Type 0
    Ends run =
        (e : End) × (d : Driver) × (s : Sched) × (k : Kernel σ) × (run ≡ done (e, d, s, k))
        × Says e d s k
        × I s k
