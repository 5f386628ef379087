-- ===== src/Boot/Soak/Ends.antt =====
-- How the soak ends.
use rusty_core.Prelude.{
  ℕ, zero, suc, ◌+◌, ◌≤◌, ◌<◌, ◌≡◌, refl, ◌⊎◌, ◌||◌, inl, inr, none, some, arith, Option-cases, sym,
  ap, ◌∙◌, subst, Bool-cases, ◌==◌, ==_iff, done, u64_mod, ◌∷◌, if◌then◌else◌, leb,
}
use rusty_core.Boot.Soak.{
  Verdict, Log, empty_log, narrate, judge, Soaked, soak_from, soak, soak_spin_guard,
}

-- What the counts say at the round of a verdict.
abbrev pub Shows : Verdict → ℕ → ℕ → Type 0
Shows Verdict.proven p a = (100 ≤ p) × (100 ≤ a)
Shows Verdict.silent p a = (100 ≤ p) × (a ≡ 0)
Shows Verdict.degraded p a = (200 ≤ p) × (0 < a) × (a < 100)
Shows Verdict.stalled p a =
    ((p < 100) ⊎ (0 < a)) × ((p < 200) ⊎ (100 ≤ a)) × ((p < 100) ⊎ (a < 100))

judge-Shows : (p a : ℕ) (v : Verdict) → judge p a ≡ some v → Shows v p a
unfolding judge
judge-Shows p a Verdict.proven h = ground arith
judge-Shows p a Verdict.silent h = ground arith
judge-Shows p a Verdict.degraded h = ground arith
judge-Shows p a Verdict.stalled h = ground arith

judge-open : (p a : ℕ) → judge p a ≡ none → Shows Verdict.stalled p a
unfolding judge
judge-open p a h = ground arith

-- Counters this far from the end of the word never make a line panic.
abbrev pub Calm : (ℕ → ℕ) → Type 0
Calm clock = (n : ℕ) → clock n + 20 < u64_mod

abbrev IsCalm : Log → Type 0
IsCalm log = (log.last_pic + 20 < u64_mod) × (log.last_apic + 20 < u64_mod)

narrated : ℕ → ℕ → Log → Log
narrated p a log =
    if leb (log.last_pic + 20) p || leb (log.last_apic + 20) a
    then record { last_pic = p; last_apic = a; lines = (p, a) ∷ log.lines }
    else log

narrate-narrated : (p a : ℕ) (log : Log) → IsCalm log → narrate p a log ≡ done (narrated p a log)
unfolding narrate narrated
narrate-narrated p a log calm = ground arith

narrated-IsCalm :
    (p a : ℕ) (log : Log)
    → p + 20 < u64_mod
    → a + 20 < u64_mod
    → IsCalm log
    → IsCalm (narrated p a log)
unfolding narrated
narrated-IsCalm p a log hp ha calm = ground arith

module _ (pic apic : ℕ → ℕ) where
  -- The loop is left in round `s.rounds`, and in no round before.
  pub record EndsAt (from guard : ℕ) (s : Soaked) : Type 0 where
    pub started : from ≤ s.rounds
    pub in_time : s.rounds ≤ from + guard
    pub shown : Shows s.verdict (pic s.rounds) (apic s.rounds)
    pub first : (j : ℕ) → from ≤ j → j < s.rounds → Shows Verdict.stalled (pic j) (apic j)
    pub spun_out : s.verdict ≡ Verdict.stalled → s.rounds ≡ from + guard

  now-EndsAt :
      (n guard : ℕ) (v : Verdict) (log : Log)
      → Shows v (pic n) (apic n)
      → (v ≡ Verdict.stalled → guard ≡ 0)
      → EndsAt n guard (record { verdict = v; rounds = n; log = log })
  now-EndsAt n guard v log shown last = record {
    started = omega arith;
    in_time = omega arith;
    shown = shown;
    first = λ j lo hi. absurd (omega arith);
    spun_out = λ e. omega (arith, last e);
  }

  later-EndsAt :
      (n guard : ℕ) (s : Soaked)
      → Shows Verdict.stalled (pic n) (apic n)
      → EndsAt (suc n) guard s
      → EndsAt n (suc guard) s
  later-EndsAt n guard s here ends = record {
    started = omega (arith, ends.started);
    in_time = omega (arith, ends.in_time);
    shown = ends.shown;
    first = λ j lo hi. elim (Bool-cases (j == n)) [
      | inl same ↦
          subst (λ (m : ℕ). Shows Verdict.stalled (pic m) (apic m)) (sym ((==_iff j n).0 same)) here
      | inr other ↦ ends.first j (ground arith) hi
    ];
    spun_out = λ e. omega (arith, ends.spun_out e);
  }

  judge-ne-stalled : (p a : ℕ) → judge p a ≡ some Verdict.stalled → ⊥
  unfolding judge
  judge-ne-stalled p a h = ground arith

  soak_from-EndsAt :
      (n : ℕ) (log : Log) (left : ℕ)
      → Calm pic
      → Calm apic
      → IsCalm log
      → (s : Soaked) × (soak_from pic apic n log left ≡ done s) × EndsAt n left s
  unfolding soak_from
  soak_from-EndsAt n log zero cp ca calm =
      rw (narrate-narrated (pic n) (apic n) log calm)
        (elim (Option-cases (judge (pic n) (apic n))) [
          | inl undecided ↦ rw undecided (
            _,
            refl,
            now-EndsAt n 0 Verdict.stalled _ (judge-open (pic n) (apic n) undecided) (λ e. refl),
          )
          | inr (v, e) ↦
              rw e (_, refl, now-EndsAt n 0 v _ (judge-Shows (pic n) (apic n) v e) (λ e. refl))
        ])
  soak_from-EndsAt n log (suc left) cp ca calm =
      rw (narrate-narrated (pic n) (apic n) log calm)
        (elim (Option-cases (judge (pic n) (apic n))) [
          | inl undecided ↦
              let (s, ran, ends) =
                soak_from-EndsAt (suc n) (narrated (pic n) (apic n) log) left cp ca
                  (narrated-IsCalm (pic n) (apic n) log (cp n) (ca n) calm) in
              rw undecided
                (s, ran, later-EndsAt n left s (judge-open (pic n) (apic n) undecided) ends)
          | inr (v, e) ↦ rw e (
            _,
            refl,
            now-EndsAt n (suc left) v _ (judge-Shows (pic n) (apic n) v e) (λ st.
                absurd (judge-ne-stalled (pic n) (apic n) (e ∙ ap (λ (w : Verdict). some w) st))),
          )
        ])

  -- The soak ends within the spin guard, at the first round whose counts decide it, with the verdict that
  -- these counts show; it is stalled only when the guard has run out on undecided counts.
  pub soak-EndsAt :
      Calm pic → Calm apic → (s : Soaked) × (soak pic apic ≡ done s) × EndsAt 0 soak_spin_guard s
  unfolding soak
  soak-EndsAt cp ca = soak_from-EndsAt 0 empty_log soak_spin_guard cp ca (omega arith)
