-- ===== src/Boot/Watch/Ends.antt =====
-- How the watch ends.
use rusty_core.Prelude.{
  ℕ, zero, suc, ◌+◌, ◌-◌, ◌≤◌, ◌<◌, ◌≡◌, refl, inl, inr, Bool, true, false, arith, done, sym, subst,
  Bool-cases, ◌==◌, ==_iff, u64_mod, [], ◌∷◌, if◌then◌else◌, leb, sub_u64, ◌>>=◌,
}
use rusty_core.Boot.Soak.{soak_spin_guard}
use rusty_core.Boot.Soak.Ends.{Calm}
use rusty_core.Boot.Watch.{Watched, Log, narrate, watch_from, watch}

narrated : ℕ → ℕ → Log → Log
narrated base a log =
    if leb (log.last_apic + 20) a
    then record { last_apic = a; lines = (a, a - base) ∷ log.lines }
    else log

narrate-narrated :
    (base a : ℕ) (log : Log)
    → base ≤ a
    → log.last_apic + 20 < u64_mod
    → narrate base a log ≡ done (narrated base a log)
unfolding narrate narrated
narrate-narrated base a log up calm = ground arith

narrated_calm :
    (base a : ℕ) (log : Log)
    → a + 20 < u64_mod
    → log.last_apic + 20 < u64_mod
    → (narrated base a log).last_apic + 20 < u64_mod
unfolding narrated
narrated_calm base a log ha calm = ground arith

subtracts : (base a : ℕ) → base ≤ a → sub_u64 a base ≡ done (a - base)
subtracts base a up = ground arith

-- What the gain over the base says.
abbrev pub Gains : Bool → ℕ → ℕ → Type 0
Gains true base a = base + 100 ≤ a
Gains false base a = a < base + 100

module _ (apic : ℕ → ℕ) (base : ℕ) where
  -- The watch ends in round `w.rounds`, and in no round before.
  pub record EndsAt (from guard : ℕ) (w : Watched) : Type 0 where
    pub started : from ≤ w.rounds
    pub in_time : w.rounds ≤ from + guard
    pub gained : Gains w.mastered base (apic w.rounds)
    pub first : (j : ℕ) → from ≤ j → j < w.rounds → Gains false base (apic j)
    pub spun_out : w.mastered ≡ false → w.rounds ≡ from + guard

  later-EndsAt :
      (n guard : ℕ) (w : Watched)
      → Gains false base (apic n)
      → EndsAt (suc n) guard w
      → EndsAt n (suc guard) w
  later-EndsAt n guard w here ends = record {
    started = omega (arith, ends.started);
    in_time = omega (arith, ends.in_time);
    gained = ends.gained;
    first = λ j lo hi. elim (Bool-cases (j == n)) [
      | inl same ↦ subst (λ (m : ℕ). Gains false base (apic m)) (sym ((==_iff j n).0 same)) here
      | inr other ↦ ends.first j (ground arith) hi
    ];
    spun_out = λ e. omega (arith, ends.spun_out e);
  }

  watch_from-EndsAt :
      (n : ℕ) (log : Log) (left : ℕ)
      → Calm apic
      → ((j : ℕ) → n ≤ j → base ≤ apic j)
      → log.last_apic + 20 < u64_mod
      → (w : Watched) × (watch_from apic base n log left ≡ done w) × EndsAt n left w
  unfolding watch_from
  watch_from-EndsAt n log zero ca up calm =
      rw
        (
          narrate-narrated base (apic n) log (up n (omega arith)) calm,
          subtracts base (apic n) (up n (omega arith)),
        )
        (elim (Bool-cases (leb 100 (apic n - base))) [
          | inl won ↦ (
            _,
            refl,
            record {
              started = omega arith;
              in_time = omega arith;
              gained = rw won (ground arith);
              first = λ j lo hi. absurd (omega arith);
              spun_out = λ e. omega arith;
            },
          )
          | inr lost ↦ (
            _,
            refl,
            record {
              started = omega arith;
              in_time = omega arith;
              gained = rw lost (ground (arith, up n));
              first = λ j lo hi. absurd (omega arith);
              spun_out = λ e. omega arith;
            },
          )
        ])
  watch_from-EndsAt n log (suc left) ca up calm =
      rw
        (
          narrate-narrated base (apic n) log (up n (omega arith)) calm,
          subtracts base (apic n) (up n (omega arith)),
        )
        (elim (Bool-cases (leb 100 (apic n - base))) [
          | inl won ↦
              rw (◌>>=◌, won)
                (
                  _,
                  refl,
                  record {
                    started = omega arith;
                    in_time = omega arith;
                    gained = ground (arith, up n);
                    first = λ j lo hi. absurd (omega arith);
                    spun_out = λ e. cc;
                  },
                )
          | inr lost ↦
              let (w, ran, ends) =
                watch_from-EndsAt (suc n) (narrated base (apic n) log) left ca
                  (λ j le. up j (omega arith)) (narrated_calm base (apic n) log (ca n) calm) in
              rw (◌>>=◌, lost) (w, ran, later-EndsAt n left w (ground (arith, up n)) ends)
        ])

-- The watch ends within the spin guard, at the first round in which the LAPIC has gained a full gate over
-- its base; it is lost only when the guard has run out.
pub watch-EndsAt :
    (apic : ℕ → ℕ) (n : ℕ)
    → Calm apic
    → ((j : ℕ) → n ≤ j → apic n ≤ apic j)
    → (w : Watched) × (watch apic n ≡ done w) × EndsAt apic (apic n) (suc n) soak_spin_guard w
unfolding watch
watch-EndsAt apic n ca up =
    watch_from-EndsAt apic (apic n) (suc n) (record { last_apic = apic n; lines = [] })
      soak_spin_guard ca (λ j le. up j (omega arith)) (ca n)
