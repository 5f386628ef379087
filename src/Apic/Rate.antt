-- ===== src/Apic/Rate.antt =====
-- The calibration yields a rate that the periodic timer accepts.
use native.Mathlib.Decide.{dec_lt}
use rusty_core.Prelude.{
  ℕ, zero, suc, ◌+◌, ◌-◌, ◌/◌, ◌%◌, ◌^◌, ◌<◌, ◌≤◌, ◌≡◌, ◌⊎◌, inl, inr, refl, ap, sym, subst, ◌∙◌,
  bit_or, Bool, false, Bool-cases, some, ◌∷◌, if◌then◌else◌, leb, u64_mod, arith, le→leb, lt→ltb,
  eq-false, ltb-false,
}
use rusty_core.Apic.{
  Fault, Result, Apic, lapic_reg, poke, calibrate_ticks, spin_guard, calib_pit_ticks, wait,
  pit_window, calib_round, measure, median, settle_rate, calibrate, start_periodic, u32_mod,
  u32_max,
}

-- One of three numbers, with two of them not above it, and two not below.
pub record IsMiddle (m a b c : ℕ) : Type 0 where
  pub one_of : (m ≡ a) ⊎ (m ≡ b) ⊎ (m ≡ c)
  pub above : ((a ≤ m) × (b ≤ m)) ⊎ ((a ≤ m) × (c ≤ m)) ⊎ ((b ≤ m) × (c ≤ m))
  pub below : ((m ≤ a) × (m ≤ b)) ⊎ ((m ≤ a) × (m ≤ c)) ⊎ ((m ≤ b) × (m ≤ c))

median-IsMiddle : (a b c : ℕ) → IsMiddle (median a b c) a b c
unfolding median
median-IsMiddle a b c = record { one_of = ground arith; above = ground arith; below = ground arith }

-- The ticks that the counter shows at load `m` to have passed since `start`.
abbrev pub elapsed : (ℕ → ℕ) → ℕ → ℕ → ℕ
elapsed clock start m = (clock m + u64_mod - start) % u64_mod

-- A PIT that reaches ten ticks at load `m`, before the guard runs out, ends the wait.
wait-found :
    (clock : ℕ → ℕ) (start left n m : ℕ)
    → n ≤ m
    → m ≤ n + left
    → calib_pit_ticks ≤ elapsed clock start m
    → (n' : ℕ) × (wait clock start n left ≡ some n')
unfolding wait
wait-found clock start zero n m low high enough =
    let here : m ≡ n = omega arith in
    (
      suc n,
      rw (le→leb 10 (elapsed clock start n) (subst (λ i. 10 ≤ elapsed clock start i) here enough)),
    )
wait-found clock start (suc left) n m low high enough =
    elim (Bool-cases (leb 10 (elapsed clock start n))) [
      | inl e ↦ (suc n, rw e)
      | inr e ↦
          let (n', found) = wait-found clock start left (suc n) m (later e) (omega arith) enough in
          (n', rw (e, found))
    ]
  where
    later : leb 10 (elapsed clock start n) ≡ false → suc n ≤ m
    later e = elim (dec_lt n m) [
      | yes lt ↦ omega arith
      | no ge ↦
          let here : m ≡ n = omega arith in
          absurd (
            cc (
              le→leb 10 (elapsed clock start n)
                  (subst (λ i. 10 ≤ elapsed clock start i) here enough),
              e,
            ))
    ]

-- A PIT that gains ten ticks within the guard, from any load on.
abbrev pub IsAlive : (ℕ → ℕ) → Type 0
IsAlive clock =
    (n : ℕ)
    → (m : ℕ) × (suc n ≤ m)
      × (m ≤ suc n + spin_guard)
      × (calib_pit_ticks ≤ elapsed clock (clock n) m)

pit_window-found :
    (clock : ℕ → ℕ) (n : ℕ) → IsAlive clock → (n' : ℕ) × (pit_window clock n ≡ some n')
unfolding pit_window
pit_window-found clock n alive =
    let (m, low, high, enough) = alive n in
    wait-found clock (clock n) spin_guard (suc n) m low high enough

-- A counter that has run down by at least ten.
abbrev pub HasRun : ℕ → Type 0
HasRun ccr = ccr + 10 ≤ u32_max

-- A mapped window none of whose registers wraps.
abbrev pub IsMapped : ℕ → Type 0
IsMapped win = (0 < win) × (win + 0x3E0 < u64_mod)

lapic_reg-mapped : (win off : ℕ) → off ≤ 0x3E0 → IsMapped win → lapic_reg win off ≡ some (win + off)
unfolding lapic_reg
lapic_reg-mapped win off small mapped = rw (lt→ltb (win + off) u64_mod (omega arith))

module _ {A : Type 0} where
  poke-mapped :
      (off v : ℕ) (s : Apic) (rest : Apic → Result A × Apic)
      → off ≤ 0x3E0
      → IsMapped s.lapic_virt
      → poke off v s rest ≡ rest (record s { writes = (s.lapic_virt + off, v) ∷ s.writes })
  unfolding poke
  poke-mapped off v s rest small mapped = rw (lapic_reg-mapped s.lapic_virt off small mapped, poke)

  -- On a live PIT and a counter that runs, a round hands its delta on.
  calib_round-measures :
      (clock : ℕ → ℕ) (ccr n : ℕ) (s : Apic) (rest : ℕ → ℕ → Apic → Result A × Apic)
      → IsAlive clock
      → HasRun ccr
      → IsMapped s.lapic_virt
      → (n' : ℕ) × (calib_round clock ccr n s rest
          ≡ rest
              (u32_max - ccr)
              n'
              (record s { writes = (s.lapic_virt + 0x380, 0xFFFF_FFFF) ∷ s.writes }))
  unfolding calib_round poke
  calib_round-measures clock ccr n s rest alive run mapped =
      let (n', found) = pit_window-found clock n alive in
      let delta : (u32_max + u32_mod - ccr) % u32_mod ≡ u32_max - ccr = omega arith in
      (
        n',
        rw (lapic_reg-mapped s.lapic_virt 0x380 (omega arith) mapped, poke, calib_round)
            (rw (found, lapic_reg-mapped s.lapic_virt 0x390 (omega arith) mapped)
              (rw (delta, eq-false (u32_max - ccr) 0 (λ e. omega arith)))),
      )

-- The rate of three deltas.
abbrev rate : ℕ → ℕ → ℕ → ℕ
rate a b c = calibrate_ticks (median a b c) 100 calib_pit_ticks

rate-bounds :
    (a b c : ℕ)
    → 10 ≤ a
    → 10 ≤ b
    → 10 ≤ c
    → a ≤ u32_max
    → b ≤ u32_max
    → c ≤ u32_max
    → (rate a b c ≡ median a b c / 10) × (0 < rate a b c) × (rate a b c ≤ u32_max)
unfolding calibrate_ticks median
rate-bounds a b c ha hb hc ka kb kc = (ground arith, ground arith, ground arith)

measure-rounds :
    (clock ccr : ℕ → ℕ) (s : Apic)
    → IsMapped s.lapic_virt
    → IsAlive clock
    → HasRun (ccr 0)
    → HasRun (ccr 1)
    → HasRun (ccr 2)
    → (s' : Apic) × (measure clock ccr s
        ≡ settle_rate (u32_max - ccr 0) (u32_max - ccr 1) (u32_max - ccr 2) s')
      × (s'.lapic_virt ≡ s.lapic_virt)
unfolding measure
measure-rounds clock ccr s mapped alive h0 h1 h2 =
    let s1 : Apic = record s { writes = (s.lapic_virt + 0x3E0, 0x3) ∷ s.writes } in
    let s2 : Apic = record s1 { writes = (s.lapic_virt + 0x380, 0xFFFF_FFFF) ∷ s1.writes } in
    let s3 : Apic = record s2 { writes = (s.lapic_virt + 0x380, 0xFFFF_FFFF) ∷ s2.writes } in
    let s4 : Apic = record s3 { writes = (s.lapic_virt + 0x380, 0xFFFF_FFFF) ∷ s3.writes } in
    let k2 : ℕ → ℕ → ℕ → ℕ → Apic → Result ℕ × Apic = λ a b c n t. settle_rate a b c t in
    let k1 : ℕ → ℕ → ℕ → Apic → Result ℕ × Apic =
      λ a b n t. calib_round clock (ccr 2) n t (k2 a b) in
    let k0 : ℕ → ℕ → Apic → Result ℕ × Apic = λ a n t. calib_round clock (ccr 1) n t (k1 a) in
    let k : Apic → Result ℕ × Apic = λ t. calib_round clock (ccr 0) 0 t k0 in
    let d0 : ℕ = u32_max - ccr 0 in
    let d1 : ℕ = u32_max - ccr 1 in
    let (n1, r0) = calib_round-measures clock (ccr 0) 0 s1 k0 alive h0 mapped in
    let (n2, r1) = calib_round-measures clock (ccr 1) n1 s2 (k1 d0) alive h1 mapped in
    let (n3, r2) = calib_round-measures clock (ccr 2) n2 s3 (k2 d0 d1) alive h2 mapped in
    (s4, poke-mapped 0x3E0 0x3 s k (omega arith) mapped ∙ r0 ∙ r1 ∙ r2, refl)

calibrate-mapped :
    (clock ccr : ℕ → ℕ) (s : Apic) → 0 < s.lapic_virt → calibrate clock ccr s ≡ measure clock ccr s
unfolding calibrate
calibrate-mapped clock ccr s pos =
    ap (λ (b : Bool). if b then (Result.err Fault.unmapped, s) else measure clock ccr s)
      (eq-false s.lapic_virt 0 (λ e. omega arith))

settle_rate-positive :
    (a b c n : ℕ) (s : Apic)
    → rate a b c ≡ n
    → 0 < n
    → settle_rate a b c s ≡ (Result.ok n, record s { ticks_per_10ms = n })
unfolding settle_rate
settle_rate-positive a b c n s e pos = rw (e, settle_rate) (rw (eq-false n 0 (λ z. omega arith)))

start_periodic-accepts :
    (s : Apic)
    → IsMapped s.lapic_virt
    → 0 < s.ticks_per_10ms
    → s.ticks_per_10ms ≤ u32_max
    → (start_periodic s).0 ≡ Result.ok s.ticks_per_10ms
unfolding start_periodic
start_periodic-accepts s mapped pos fits =
    rw
      (
        eq-false s.lapic_virt 0 (λ e. omega arith),
        eq-false s.ticks_per_10ms 0 (λ e. omega arith),
        ltb-false u32_max s.ticks_per_10ms fits,
      )
      (ap (λ (r : Result ℕ × Apic). r.0)
        (poke-mapped 0x320 (bit_or 0xEF (2 ^ 17)) s last (omega arith) mapped
          ∙ poke-mapped 0x380 s.ticks_per_10ms _ (λ t. (Result.ok s.ticks_per_10ms, t))
              (omega arith) mapped))
  where
    last : Apic → Result ℕ × Apic
    last t = poke 0x380 s.ticks_per_10ms t (λ u. (Result.ok s.ticks_per_10ms, u))

-- With the window mapped, a live PIT, and a counter that runs down by at least ten in each of the three
-- windows, the calibration succeeds: it returns and stores a tenth of the middle one of the three deltas,
-- and the periodic timer accepts that rate.
pub calibrate-start_periodic :
    (clock ccr : ℕ → ℕ) (s : Apic)
    → IsMapped s.lapic_virt
    → IsAlive clock
    → HasRun (ccr 0)
    → HasRun (ccr 1)
    → HasRun (ccr 2)
    → (m : ℕ) × IsMiddle m (u32_max - ccr 0) (u32_max - ccr 1) (u32_max - ccr 2)
      × ((calibrate clock ccr s).0 ≡ Result.ok (m / 10))
      × ((calibrate clock ccr s).1.ticks_per_10ms ≡ m / 10)
      × (0 < m / 10)
      × ((start_periodic (calibrate clock ccr s).1).0 ≡ Result.ok (m / 10))
calibrate-start_periodic clock ccr s mapped alive h0 h1 h2 =
    let (s', measured, same_window) = measure-rounds clock ccr s mapped alive h0 h1 h2 in
    let (tenth, pos, fits) =
      rate-bounds (u32_max - ccr 0) (u32_max - ccr 1) (u32_max - ccr 2) (omega arith) (omega arith)
        (omega arith) (omega arith) (omega arith) (omega arith) in
    let n : ℕ = median (u32_max - ccr 0) (u32_max - ccr 1) (u32_max - ccr 2) / 10 in
    let whole =
      calibrate-mapped clock ccr s mapped.0
      ∙ measured
      ∙ settle_rate-positive _ _ _ n s' tenth (subst (λ (m : ℕ). 0 < m) tenth pos) in
    (
      median (u32_max - ccr 0) (u32_max - ccr 1) (u32_max - ccr 2),
      median-IsMiddle (u32_max - ccr 0) (u32_max - ccr 1) (u32_max - ccr 2),
      ap (λ (r : Result ℕ × Apic). r.0) whole,
      ap (λ (r : Result ℕ × Apic). r.1.ticks_per_10ms) whole,
      subst (λ (m : ℕ). 0 < m) tenth pos,
      ap (λ (r : Result ℕ × Apic). (start_periodic r.1).0) whole
          ∙ start_periodic-accepts (record s' { ticks_per_10ms = n })
              (subst IsMapped (sym same_window) mapped) (subst (λ (m : ℕ). 0 < m) tenth pos)
              (subst (λ (m : ℕ). m ≤ u32_max) tenth fits),
    )
