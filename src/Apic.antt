-- ===== src/Apic.antt =====
-- kernel/src/apic.rs: the local APIC, its calibration against the PIT, and the promotion of its timer.
-- Device registers are write-only here: the writes are kept in order, and what the device answers is
-- an argument.
pub mod Rate
pub mod Masks
mod Tests
use rusty_core.Prelude.{
  ℕ, zero, suc, ◌+◌, ◌-◌, ◌*◌, ◌/◌, ◌%◌, ◌^◌, ◌<◌, ◌≤◌, ◌≡◌, min, max, bit_or, bit_and, Bool, true,
  false, not, ◌||◌, Option, none, some, List, [], ◌∷◌, if◌then◌else◌, ltb, leb, ◌==◌, u64_mod,
  u64_max, checked_add, saturating_mul, arith, Outcome, done, panics, running,
}
use rusty_core.Memory.Mapping

pub data Fault : Type 0 where
  absent disabled unmapped overflows dead_pit zero_delta zero_rate uncalibrated : Fault
  refused : Mapping.Fault → Fault

pub data Result (A : Type 0) : Type 0 where
  ok : A → Result A
  err : Fault → Result A

abbrev pub u32_mod : ℕ
u32_mod = 2 ^ 32

abbrev pub u32_max : ℕ
u32_max = 2 ^ 32 - 1

abbrev pub fallback_base : ℕ
fallback_base = 0xFEE0_0000

pub record Probe : Type 0 where
  pub present : Bool
  pub base : ℕ
  pub enabled : Bool
  pub bsp : Bool
  pub have_rsdp : Bool

-- `probe`, of the CPUID word, of IA32_APIC_BASE, and of whether the loader found the RSDP.
unfoldable pub probe : ℕ → ℕ → Bool → Probe
probe edx msr have_rsdp =
    let base = bit_and msr 0x000F_FFFF_FFFF_F000 in
    record {
      present = not (bit_and edx (2 ^ 9) == 0);
      base = if base == 0 then fallback_base else base;
      enabled = not (bit_and msr (2 ^ 11) == 0);
      bsp = not (bit_and msr (2 ^ 8) == 0);
      have_rsdp = have_rsdp;
    }

-- The statics of the file, the mask bytes of the two PICs, and the register writes, latest first.
pub record Apic : Type 0 where
  pub lapic_virt : ℕ
  pub ticks_per_10ms : ℕ
  pub master_mask : ℕ
  pub slave_mask : ℕ
  pub eoi_base : ℕ
  pub writes : List (ℕ × ℕ)

unfoldable pub lapic_reg : ℕ → ℕ → Option ℕ
lapic_reg win_base off = checked_add win_base off

-- `write_volatile(lapic_reg(win, off)?, v)`, then the rest.
unfoldable pub poke : {A : Type 0} → ℕ → ℕ → Apic → (Apic → Result A × Apic) → Result A × Apic
unfolding lapic_reg
poke off v s rest = elim (lapic_reg s.lapic_virt off) [
  | none ↦ (Result.err Fault.overflows, s)
  | some at ↦ rest (record s { writes = (at, v) ∷ s.writes })
]

-- `init`; `window` is what `map_mmio_window` returned, and `lvt` what the timer entry reads.
unfoldable pub init : Probe → Result ℕ → ℕ → Apic → Result (Unit {0}) × Apic
unfolding poke
init p window lvt s =
    if not p.present
    then (Result.err Fault.absent, s)
    else if not p.enabled
    then (Result.err Fault.disabled, s)
    else elim window [
      | Result.err e ↦ (Result.err e, s)
      | Result.ok base ↦
          poke 0xF0 0x1FF (record s { lapic_virt = base; eoi_base = base + 0xB0 })
            (λ s1.
              poke 0x320 (bit_or lvt (2 ^ 16)) s1 (λ s2. poke 0x80 0 s2 (λ s3. (Result.ok tt, s3))))
    ]

unfoldable pub calibrate_ticks : ℕ → ℕ → ℕ → ℕ
calibrate_ticks delta pit_hz pit_ticks =
    if (pit_hz == 0) || (pit_ticks == 0) then 0 else saturating_mul delta (pit_hz / 100) / pit_ticks

abbrev pub spin_guard : ℕ
spin_guard = 10000000

abbrev pub calib_pit_ticks : ℕ
calib_pit_ticks = 10

-- The wait for ten ticks of the PIT: `clock n` is the counter at its `n`-th load. The guard allows
-- `left` more spins. The result is the number of loads made.
unfoldable pub wait : (ℕ → ℕ) → ℕ → ℕ → ℕ → Option ℕ
wait clock start n zero =
    if leb calib_pit_ticks ((clock n + u64_mod - start) % u64_mod) then some (suc n) else none
wait clock start n (suc left) =
    let rest = wait clock start (suc n) left in
    if leb calib_pit_ticks ((clock n + u64_mod - start) % u64_mod) then some (suc n) else rest

-- The window of one round: the counter is loaded once more, before the wait.
unfoldable pub pit_window : (ℕ → ℕ) → ℕ → Option ℕ
unfolding wait
pit_window clock n = wait clock (clock n) (suc n) spin_guard

-- One round: the number of loads so far, and the count that the current-count register then shows.
unfoldable pub calib_round :
    {A : Type 0} → (ℕ → ℕ) → ℕ → ℕ → Apic → (ℕ → ℕ → Apic → Result A × Apic) → Result A × Apic
unfolding poke pit_window
calib_round clock ccr n s rest = poke 0x380 0xFFFF_FFFF s (λ s1. elim (pit_window clock n) [
  | none ↦ (Result.err Fault.dead_pit, s1)
  | some n' ↦ elim (lapic_reg s1.lapic_virt 0x390) [
    | none ↦ (Result.err Fault.overflows, s1)
    | some _ ↦
        let delta = (u32_max + u32_mod - ccr) % u32_mod in
        let onwards = rest delta n' s1 in
        if delta == 0 then (Result.err Fault.zero_delta, s1) else onwards
  ]
])

-- "max(min(a,b), min(max(a,b),c)) is the middle value."
unfoldable pub median : ℕ → ℕ → ℕ → ℕ
median a b c = max (min a b) (min c (max a b))

unfoldable pub spread : ℕ → ℕ → ℕ → ℕ
spread a b c = max (max a b) c - min (min a b) c

-- The rate of the three rounds is stored, unless it is zero.
unfoldable pub settle_rate : ℕ → ℕ → ℕ → Apic → Result ℕ × Apic
unfolding median calibrate_ticks
settle_rate a b c s =
    let per_10ms = calibrate_ticks (median a b c) 100 calib_pit_ticks in
    if per_10ms == 0
    then (Result.err Fault.zero_rate, s)
    else (Result.ok per_10ms, record s { ticks_per_10ms = per_10ms })

-- `calibrate` past its first check; `ccr r` is the current count at the end of round `r`.
unfoldable pub measure : (ℕ → ℕ) → (ℕ → ℕ) → Apic → Result ℕ × Apic
unfolding poke calib_round settle_rate
measure clock ccr s = poke 0x3E0 0x3 s (λ s1. calib_round clock (ccr 0) 0 s1 (λ a n1 s2.
    calib_round clock (ccr 1) n1 s2
      (λ b n2 s3. calib_round clock (ccr 2) n2 s3 (λ c n3 s4. settle_rate a b c s4))))

unfoldable pub calibrate : (ℕ → ℕ) → (ℕ → ℕ) → Apic → Result ℕ × Apic
unfolding measure
calibrate clock ccr s =
    if s.lapic_virt == 0 then (Result.err Fault.unmapped, s) else measure clock ccr s

unfoldable pub start_periodic : Apic → Result ℕ × Apic
unfolding poke
start_periodic s =
    let quantum = s.ticks_per_10ms in
    if s.lapic_virt == 0
    then (Result.err Fault.unmapped, s)
    else if (quantum == 0) || ltb u32_max quantum
    then (Result.err Fault.uncalibrated, s)
    else poke 0x320 (bit_or 0xEF (2 ^ 17)) s
        (λ s1. poke 0x380 quantum s1 (λ s2. (Result.ok quantum, s2)))

unfoldable pub promote : Apic → Result (Unit {0}) × Apic
promote s =
    if s.lapic_virt == 0
    then (Result.err Fault.unmapped, s)
    else if s.ticks_per_10ms == 0
    then (Result.err Fault.uncalibrated, s)
    else (Result.ok tt, record s { master_mask = bit_or s.master_mask 1 })

unfoldable pub rollback_to_pit : Apic → Apic
rollback_to_pit s = record s { master_mask = bit_and s.master_mask 254 }

-- `eoi`, called by the handlers of the error and the spurious vector.
unfoldable pub eoi : Apic → Outcome (Result (Unit {0}) × Apic)
unfolding lapic_reg
eoi s =
    if s.lapic_virt == 0
    then done (Result.err Fault.unmapped, s)
    else elim (lapic_reg s.lapic_virt 0xB0) [
      | none ↦ panics
      | some at ↦ done (Result.ok tt, record s { writes = (at, 0) ∷ s.writes })
    ]
