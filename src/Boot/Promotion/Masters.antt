-- ===== src/Boot/Promotion/Masters.antt =====
-- The master clock at the end of the bring-up.
use rusty_core.Prelude.{
  ℕ, suc, ◌+◌, ◌/◌, ◌%◌, ◌<◌, ◌≤◌, ◌≡◌, refl, inl, inr, Bool, arith, done, ◌>>=◌, ◌∙◌, ap, subst,
  Bool-cases,
}
use rusty_core.Apic.{Apic, promote, rollback_to_pit}
use rusty_core.Apic.Masks.{promote-rollback, bit_and-clears}
use rusty_core.Boot.Soak.{Verdict, Soaked, soak_spin_guard, skips}
use rusty_core.Boot.Soak.Ends.{Calm, Shows, soak-EndsAt}
use rusty_core.Boot.Watch.Ends.{Gains, watch-EndsAt}
use rusty_core.Boot.Promotion.{Ending, promoted, promote_and_watch, gate, onwards, bring_up}

-- The window is mapped, the rate is measured, and the mask is a byte.
pub record IsReady (s : Apic) : Type 0 where
  pub mapped : 0 < s.lapic_virt
  pub rated : 0 < s.ticks_per_10ms
  pub byte : s.master_mask < 256

-- Counters that do not fall and never come near the end of the word.
pub record IsClock (clock : ℕ → ℕ) : Type 0 where
  pub calm : Calm clock
  pub rises : (i j : ℕ) → i ≤ j → clock i ≤ clock j

-- IRQ 0 of the master PIC is masked, and all else of the two masks is as before.
pub record IsMasked (irq0 : ℕ) (s s' : Apic) : Type 0 where
  pub line : s'.master_mask % 2 ≡ irq0
  pub others : s'.master_mask / 2 ≡ s.master_mask / 2
  pub slave : s'.slave_mask ≡ s.slave_mask

pub promoted-masks : (s : Apic) → IsReady s → promoted s ≡ done (promote s).1
unfolding promoted
promoted-masks s ready =
    rw (promoted, (promote-rollback s ready.mapped ready.rated ready.byte).0) refl

pub promote-IsMasked : (s : Apic) → IsReady s → IsMasked 1 s (promote s).1
promote-IsMasked s ready =
    let facts = promote-rollback s ready.mapped ready.rated ready.byte in
    record { line = facts.1; others = facts.2; slave = facts.4 }

rollback-IsMasked : (s : Apic) → IsReady s → IsMasked 0 s (rollback_to_pit (promote s).1)
unfolding rollback_to_pit
rollback-IsMasked s ready =
    let facts = promote-rollback s ready.mapped ready.rated ready.byte in
    let (low, high) = bit_and-clears s.master_mask ready.byte in
    record {
      line = ap (λ (m : ℕ). m % 2) facts.3 ∙ low;
      others = ap (λ (m : ℕ). m / 2) facts.3 ∙ high;
      slave = facts.4;
    }

module _ (pic apic : ℕ → ℕ) where
  -- Both clocks had reached the gate before the promotion.
  abbrev pub Passed : ℕ → Type 0
  Passed n = (100 ≤ pic n) × (100 ≤ apic n)

  -- What each ending means, for the state before and the state after.
  abbrev pub Settled : Ending → Apic → Apic → Type 0
  Settled Ending.halted_stalled s s' =
      (s' ≡ s) × Shows Verdict.stalled (pic soak_spin_guard) (apic soak_spin_guard)
  Settled Ending.halted_skipped s s' = (s' ≡ s) × (n : ℕ) × (100 ≤ pic n) × (apic n < 100)
  Settled Ending.master_lapic s s' =
      IsMasked 1 s s' × (n : ℕ) × (m : ℕ) × Passed n × (n < m) × (apic (suc n) + 100 ≤ apic m)
  Settled Ending.master_pit s s' =
      IsMasked 0 s s'
      × (n : ℕ) × Passed n
      × (apic (suc (suc n) + soak_spin_guard) < apic (suc n) + 100)

  promote_and_watch-Settled :
      (n : ℕ) (s : Apic)
      → IsClock apic
      → IsReady s
      → Passed n
      → (e : Ending) × (s' : Apic) × (promote_and_watch pic apic (suc n) s ≡ done (e, s'))
        × Settled e s s'
  unfolding promote_and_watch
  promote_and_watch-Settled n s clock ready passed =
      let (w, ran, ends) =
        watch-EndsAt apic (suc n) clock.calm (λ j le. clock.rises (suc n) j le) in
      let s2 : Apic = (promote s).1 in
      rw (promoted-masks s ready, ◌>>=◌, ran)
        (elim (Bool-cases w.mastered) [
          | inl won ↦ rw won (
            Ending.master_lapic,
            s2,
            refl,
            (
              promote-IsMasked s ready,
              n,
              w.rounds,
              passed,
              omega (arith, ends.started),
              subst (λ (b : Bool). Gains b (apic (suc n)) (apic w.rounds)) won ends.gained,
            ),
          )
          | inr lost ↦ rw lost (
            Ending.master_pit,
            rollback_to_pit s2,
            refl,
            (
              rollback-IsMasked s ready,
              n,
              passed,
              subst (λ (t : ℕ). apic t < apic (suc n) + 100) (ends.spun_out lost)
                  (subst (λ (b : Bool). Gains b (apic (suc n)) (apic w.rounds)) lost ends.gained),
            ),
          )
        ])

  -- Past the gate, when the soak has ended in round `n` with the PIT at its mark.
  gate-Settled :
      (n : ℕ) (s : Apic)
      → IsClock pic
      → IsClock apic
      → IsReady s
      → 100 ≤ pic n
      → (e : Ending) × (s' : Apic) × (gate pic apic (suc n) s ≡ done (e, s')) × Settled e s s'
  unfolding gate skips
  gate-Settled n s cp ca ready mark =
      let up : 100 ≤ pic (suc n) = omega (arith, cp.rises n (suc n) (omega arith)) in
      elim (Bool-cases (skips (pic (suc n)) (apic (suc n)))) [
        | inl skipped ↦ rw skipped (Ending.halted_skipped, s, refl, (refl, suc n, up, ground arith))
        | inr passed ↦ rw passed (promote_and_watch-Settled (suc n) s ca ready (up, ground arith))
      ]

  after_soak :
      (v : Verdict) (soaked : Soaked) (s : Apic)
      → soaked.verdict ≡ v
      → IsClock pic
      → IsClock apic
      → IsReady s
      → Shows v (pic soaked.rounds) (apic soaked.rounds)
      → (v ≡ Verdict.stalled → soaked.rounds ≡ soak_spin_guard)
      → (e : Ending) × (s' : Apic) × (onwards pic apic soaked s ≡ done (e, s')) × Settled e s s'
  unfolding onwards
  after_soak Verdict.proven soaked s is_v cp ca ready shown out =
      rw is_v (gate-Settled soaked.rounds s cp ca ready shown.0)
  after_soak Verdict.silent soaked s is_v cp ca ready shown out =
      rw is_v (gate-Settled soaked.rounds s cp ca ready shown.0)
  after_soak Verdict.degraded soaked s is_v cp ca ready shown out =
      rw is_v (gate-Settled soaked.rounds s cp ca ready (omega arith))
  after_soak Verdict.stalled soaked s is_v cp ca ready shown out = rw is_v (
    Ending.halted_stalled,
    s,
    refl,
    (refl, subst (λ (n : ℕ). Shows Verdict.stalled (pic n) (apic n)) (out refl) shown),
  )

  -- With the window mapped and the rate measured, the bring-up always comes to an end, and without a
  -- panic. It halts with the device untouched: stalled, when the counts are undecided at the end of the
  -- guard, or skipped, when the PIT reached its mark and the LAPIC did not. Otherwise both clocks had
  -- reached the gate; then either the LAPIC gained a full gate more, and IRQ 0 is masked, or it did not
  -- within the guard, and IRQ 0 is open again. The other lines are as before in both cases.
  pub bring_up-Settled :
      (s : Apic)
      → IsClock pic
      → IsClock apic
      → IsReady s
      → (e : Ending) × (s' : Apic) × (bring_up pic apic s ≡ done (e, s')) × Settled e s s'
  unfolding bring_up
  bring_up-Settled s cp ca ready =
      let (soaked, ran, ends) = soak-EndsAt pic apic cp.calm ca.calm in
      rw (ran, ◌>>=◌)
        (after_soak soaked.verdict soaked s refl cp ca ready ends.shown
          (λ e. omega (arith, ends.spun_out e)))
