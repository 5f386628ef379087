-- ===== src/Boot/Soak.antt =====
-- The dual-clock soak of `kernel_main` in kernel/src/main.rs, and the gate behind it. `pic n` and
-- `apic n` are the two tick counters as the `n`-th round of a loop loads them.
pub mod Ends
use rusty_core.Prelude.{
  ℕ, zero, suc, ◌+◌, ◌*◌, Bool, true, false, ◌&&◌, ◌||◌, Option, none, some, List, [], ◌∷◌,
  if◌then◌else◌, leb, ltb, ◌==◌, Outcome, done, panics, running, ◌>>=◌, add_u64,
}

-- `SOAK_TICKS_EACH` and, of kernel/src/apic.rs, `SOAK_SPIN_GUARD`.
abbrev pub soak_ticks_each : ℕ
soak_ticks_each = 100

unfoldable pub soak_spin_guard : ℕ
soak_spin_guard = 100000000

-- The three breaks of the loop, and the halt when the spins run out.
pub data Verdict : Type 0 where
  proven silent degraded stalled : Verdict

-- The last counts that were printed, and the lines, latest first.
pub record Log : Type 0 where
  pub last_pic : ℕ
  pub last_apic : ℕ
  pub lines : List (ℕ × ℕ)

abbrev pub empty_log : Log
empty_log = record { last_pic = 0; last_apic = 0; lines = [] }

-- `a >= last + 20`.
abbrev pub moved : ℕ → ℕ → Outcome Bool
moved last a = add_u64 last 20 >>= λ next. done (leb next a)

-- `narrate p a log` prints the two counts when either has moved by twenty.
unfoldable pub narrate : ℕ → ℕ → Log → Outcome Log
narrate p a log = do
  pic_moved ← moved log.last_pic p
  apic_moved ← if pic_moved then done true else moved log.last_apic a
  let line : Log = record { last_pic = p; last_apic = a; lines = (p, a) ∷ log.lines }
  done (if apic_moved then line else log)

-- The three tests, in the order of the loop.
unfoldable pub judge : ℕ → ℕ → Option Verdict
judge p a =
    if leb soak_ticks_each p && leb soak_ticks_each a
    then some Verdict.proven
    else if leb soak_ticks_each p && (a == 0)
    then some Verdict.silent
    else if leb (soak_ticks_each * 2) p && ltb a soak_ticks_each
    then some Verdict.degraded
    else none

pub record Soaked : Type 0 where
  pub verdict : Verdict
  pub rounds : ℕ
  pub log : Log

module _ (pic apic : ℕ → ℕ) where
  -- Round `n`, with `left` spins to go before the guard.
  unfoldable pub soak_from : ℕ → Log → ℕ → Outcome Soaked
  unfolding narrate judge
  soak_from n log zero = do
    log2 ← narrate (pic n) (apic n) log
    elim (judge (pic n) (apic n)) [
      | some v ↦ done (record { verdict = v; rounds = n; log = log2 })
      | none ↦ done (record { verdict = Verdict.stalled; rounds = n; log = log2 })
    ]
  soak_from n log (suc left) = do
    log2 ← narrate (pic n) (apic n) log
    elim (judge (pic n) (apic n)) [
      | some v ↦ done (record { verdict = v; rounds = n; log = log2 })
      | none ↦ soak_from (suc n) log2 left
    ]

  unfoldable pub soak : Outcome Soaked
  unfolding soak_from soak_spin_guard
  soak = soak_from 0 empty_log soak_spin_guard

-- "promotion SKIPPED" at these counts.
unfoldable pub skips : ℕ → ℕ → Bool
skips p a = ltb p soak_ticks_each || ltb a soak_ticks_each
