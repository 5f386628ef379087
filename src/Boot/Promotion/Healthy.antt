-- ===== src/Boot/Promotion/Healthy.antt =====
-- A healthy machine: the LAPIC becomes the master.
use rusty_core.Prelude.{
  ℕ, suc, ◌+◌, ◌<◌, ◌≤◌, ◌≡◌, refl, inl, inr, Bool, false, arith, done, ◌>>=◌, subst, Bool-cases,
}
use rusty_core.Apic.{Apic, promote}
use rusty_core.Boot.Soak.{Verdict, soak_spin_guard, skips}
use rusty_core.Boot.Soak.Ends.{Shows, soak-EndsAt}
use rusty_core.Boot.Watch.Ends.{Gains, watch-EndsAt}
use rusty_core.Boot.Promotion.{Ending, promote_and_watch, gate, onwards, bring_up}
use rusty_core.Boot.Promotion.Masters.{
  IsReady, IsClock, IsMasked, Passed, promoted-masks, promote-IsMasked,
}

unskipped : (p a : ℕ) → 100 ≤ p → 100 ≤ a → skips p a ≡ false
unfolding skips
unskipped p a hp ha = ground arith

module _ (pic apic : ℕ → ℕ) where
  -- The clocks of a healthy machine: both pass the gate within the guard, the LAPIC is not silent at the
  -- first mark nor short at the second, and it gains a gate within the guard of any watch.
  pub record IsHealthy (r : ℕ) : Type 0 where
    pub in_time : r ≤ soak_spin_guard
    pub reached : Passed pic apic r
    pub loud : (n : ℕ) → 100 ≤ pic n → 0 < apic n
    pub steady : (n : ℕ) → 200 ≤ pic n → 100 ≤ apic n
    pub gains : (n : ℕ) → n ≤ soak_spin_guard + 2 → apic n + 100 ≤ apic (suc n + soak_spin_guard)

  healthy-proven :
      (r : ℕ) (v : Verdict) (n : ℕ)
      → IsClock pic
      → IsClock apic
      → IsHealthy r
      → Shows v (pic n) (apic n)
      → (v ≡ Verdict.stalled → n ≡ soak_spin_guard)
      → v ≡ Verdict.proven
  healthy-proven r Verdict.proven n cp ca well shown out = refl
  healthy-proven r Verdict.silent n cp ca well shown out =
      absurd (omega (arith, well.loud n shown.0))
  healthy-proven r Verdict.degraded n cp ca well shown out =
      absurd (omega (arith, well.steady n shown.0))
  healthy-proven r Verdict.stalled n cp ca well shown out =
      let le : r ≤ n = omega (arith, well.in_time, out refl) in
      absurd (omega (arith, well.reached, cp.rises r n le, ca.rises r n le, shown.2))

  watched-healthy :
      (r n : ℕ) (s : Apic)
      → IsClock apic
      → IsReady s
      → IsHealthy r
      → n ≤ soak_spin_guard + 2
      → promote_and_watch pic apic n s ≡ done (Ending.master_lapic, (promote s).1)
  unfolding promote_and_watch
  watched-healthy r n s ca ready well early =
      let (w, ran, ends) = watch-EndsAt apic n ca.calm (λ j le. ca.rises n j le) in
      rw (promoted-masks s ready, ◌>>=◌, ran)
        (elim (Bool-cases w.mastered) [
          | inl won ↦ rw won refl
          | inr lost ↦ absurd (
              omega (
                arith,
                well.gains n early,
                subst (λ (t : ℕ). apic t < apic n + 100) (ends.spun_out lost)
                    (subst (λ (b : Bool). Gains b (apic n) (apic w.rounds)) lost ends.gained),
              ))
        ])

  gate-healthy :
      (r n : ℕ) (s : Apic)
      → IsClock pic
      → IsClock apic
      → IsReady s
      → IsHealthy r
      → Passed pic apic n
      → n ≤ soak_spin_guard
      → gate pic apic (suc n) s ≡ done (Ending.master_lapic, (promote s).1)
  unfolding gate
  gate-healthy r n s cp ca ready well passed early =
      rw
        (unskipped (pic (suc n)) (apic (suc n))
          (omega (arith, passed, cp.rises n (suc n) (omega arith)))
          (omega (arith, passed, ca.rises n (suc n) (omega arith))))
        (watched-healthy r (suc (suc n)) s ca ready well (omega arith))

  -- Both clocks pass the gate within the guard, the LAPIC is not silent when the PIT passes it nor short
  -- when the PIT has doubled it, and it gains a gate within the guard of the watch: then the bring-up ends with the
  -- LAPIC as the master and IRQ 0 masked.
  pub bring_up-healthy :
      (r : ℕ) (s : Apic)
      → IsClock pic
      → IsClock apic
      → IsReady s
      → IsHealthy r
      → (s' : Apic) × (bring_up pic apic s ≡ done (Ending.master_lapic, s')) × IsMasked 1 s s'
  unfolding bring_up onwards
  bring_up-healthy r s cp ca ready well =
      let (soaked, ran, ends) = soak-EndsAt pic apic cp.calm ca.calm in
      let won =
        healthy-proven r soaked.verdict soaked.rounds cp ca well ends.shown
          (λ e. omega (arith, ends.spun_out e)) in
      (
        (promote s).1,
        rw (ran, ◌>>=◌, onwards, won)
            (gate-healthy r soaked.rounds s cp ca ready well
              (subst (λ (v : Verdict). Shows v (pic soaked.rounds) (apic soaked.rounds)) won
                ends.shown)
              (omega (arith, ends.in_time))),
        promote-IsMasked s ready,
      )
