-- ===== src/Boot/Watch.antt =====
-- The watch of `kernel_main` in kernel/src/main.rs after the promotion: the LAPIC has to bring a full gate
-- of ticks. `apic n` is its tick counter at the `n`-th load.
pub mod Ends
use rusty_core.Prelude.{
  ℕ, zero, suc, ◌+◌, List, [], ◌∷◌, Bool, true, false, if◌then◌else◌, leb, Outcome, done, panics,
  running, ◌>>=◌, add_u64, sub_u64,
}
use rusty_core.Boot.Soak.{soak_ticks_each, soak_spin_guard, moved}

-- Whether the LAPIC proved itself, the round of the last load, and the lines, latest first.
pub record Watched : Type 0 where
  pub mastered : Bool
  pub rounds : ℕ
  pub lines : List (ℕ × ℕ)

-- The last count that was printed, and the lines.
pub record Log : Type 0 where
  pub last_apic : ℕ
  pub lines : List (ℕ × ℕ)

unfoldable pub narrate : ℕ → ℕ → Log → Outcome Log
narrate base a log = do
  apic_moved ← moved log.last_apic a
  let line = sub_u64 a base >>= λ d. done (record { last_apic = a; lines = (a, d) ∷ log.lines })
  if apic_moved then line else done log

module _ (apic : ℕ → ℕ) (base : ℕ) where
  -- Round `n`, with `left` spins to go before the guard.
  unfoldable pub watch_from : ℕ → Log → ℕ → Outcome Watched
  unfolding narrate
  watch_from n log zero = do
    log2 ← narrate base (apic n) log
    gained ← sub_u64 (apic n) base
    done (record { mastered = leb soak_ticks_each gained; rounds = n; lines = log2.lines })
  watch_from n log (suc left) = do
    log2 ← narrate base (apic n) log
    gained ← sub_u64 (apic n) base
    elim (leb soak_ticks_each gained) [
      | true ↦ done (record { mastered = true; rounds = n; lines = log2.lines })
      | false ↦ watch_from (suc n) log2 left
    ]

-- The base is the load before the loop.
unfoldable pub watch : (ℕ → ℕ) → ℕ → Outcome Watched
unfolding watch_from soak_spin_guard
watch apic n =
    watch_from apic (apic n) (suc n) (record { last_apic = apic n; lines = [] }) soak_spin_guard
