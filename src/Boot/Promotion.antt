-- ===== src/Boot/Promotion.antt =====
-- `kernel_main` of kernel/src/main.rs from the soak to the end of the watch: which clock is the master.
pub mod Masters
pub mod Healthy
use rusty_core.Prelude.{
  ℕ, suc, ◌+◌, Bool, true, false, if◌then◌else◌, Outcome, done, panics, running, ◌>>=◌,
}
use rusty_core.Apic.{Result, Apic, promote, rollback_to_pit}
use rusty_core.Boot.Soak.{Verdict, Soaked, soak, skips}
use rusty_core.Boot.Watch.{watch}

-- The two halts, and the two ways on to the scheduler.
pub data Ending : Type 0 where
  halted_stalled halted_skipped master_lapic master_pit : Ending

-- `apic::promote().expect(…)`.
unfoldable pub promoted : Apic → Outcome Apic
unfolding promote
promoted s = elim (promote s).0 [ Result.ok _ ↦ done (promote s).1 | Result.err _ ↦ panics ]

module _ (pic apic : ℕ → ℕ) where
  -- The promotion, and the watch from round `n`.
  unfoldable pub promote_and_watch : ℕ → Apic → Outcome (Ending × Apic)
  unfolding promoted rollback_to_pit
  promote_and_watch n s = do
    s2 ← promoted s
    w ← watch apic n
    done (if w.mastered then (Ending.master_lapic, s2) else (Ending.master_pit, rollback_to_pit s2))

  -- The gate loads both counters once more, in round `n`.
  unfoldable pub gate : ℕ → Apic → Outcome (Ending × Apic)
  unfolding skips promote_and_watch
  gate n s =
      let rest = promote_and_watch (suc n) s in
      if skips (pic n) (apic n) then done (Ending.halted_skipped, s) else rest

  -- After the loop, unless it has halted in there.
  unfoldable pub onwards : Soaked → Apic → Outcome (Ending × Apic)
  unfolding gate
  onwards soaked s = elim soaked.verdict [
    | Verdict.stalled ↦ done (Ending.halted_stalled, s)
    | _ ↦ gate (suc soaked.rounds) s
  ]

  unfoldable pub bring_up : Apic → Outcome (Ending × Apic)
  unfolding onwards
  bring_up s = soak pic apic >>= λ soaked. onwards soaked s
