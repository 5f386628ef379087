-- ===== src/Apic/Tests.antt =====
-- Instances of the calibration's theorems.
use rusty_core.Prelude.{ℕ, ◌+◌, ◌/◌, ◌%◌, ◌<◌, ◌≡◌, bit_and, [], arith, u64_mod}
use rusty_core.Apic.{Apic, Result, calibrate, start_periodic, promote, rollback_to_pit}
use rusty_core.Apic.Masks.{promote-rollback}
use rusty_core.Apic.Rate.{IsAlive, IsMiddle, calibrate-start_periodic}

abbrev mapped_apic : Apic
mapped_apic = record {
  lapic_virt = 0xFEE0_0000;
  ticks_per_10ms = 0;
  master_mask = 0xF8;
  slave_mask = 0xFF;
  eoi_base = 0xFEE0_00B0;
  writes = [];
}

-- A PIT that gains a tick every hundred loads, until its counter would wrap.
abbrev slow_clock : ℕ → ℕ
slow_clock n = n / 100 % u64_mod

slow_clock-IsAlive : IsAlive slow_clock
slow_clock-IsAlive n = (n + 1000, omega arith, omega arith, omega arith)

abbrev counts : ℕ → ℕ
counts round = 4294000000 + round

calibrate-start_periodic_example :
    (m : ℕ) × IsMiddle m 967295 967294 967293
    × ((calibrate slow_clock counts mapped_apic).0 ≡ Result.ok (m / 10))
    × ((calibrate slow_clock counts mapped_apic).1.ticks_per_10ms ≡ m / 10)
    × (0 < m / 10)
    × ((start_periodic (calibrate slow_clock counts mapped_apic).1).0 ≡ Result.ok (m / 10))
calibrate-start_periodic_example =
    calibrate-start_periodic slow_clock counts mapped_apic (omega arith, omega arith)
      slow_clock-IsAlive (omega arith) (omega arith) (omega arith)

abbrev calibrated_apic : Apic
calibrated_apic = record mapped_apic { ticks_per_10ms = 62500 }

promote-rollback_example :
    ((promote calibrated_apic).0 ≡ Result.ok tt)
    × ((promote calibrated_apic).1.master_mask % 2 ≡ 1)
    × ((promote calibrated_apic).1.master_mask / 2 ≡ 0xF8 / 2)
    × ((rollback_to_pit (promote calibrated_apic).1).master_mask ≡ bit_and 0xF8 254)
    × ((promote calibrated_apic).1.slave_mask ≡ 0xFF)
    × ((rollback_to_pit (promote calibrated_apic).1).master_mask % 2 ≡ 0)
    × ((rollback_to_pit (promote calibrated_apic).1).master_mask / 2 ≡ 0xF8 / 2)
    × ((rollback_to_pit (promote calibrated_apic).1).slave_mask ≡ 0xFF)
promote-rollback_example =
    promote-rollback calibrated_apic (omega arith) (omega arith) (omega arith)
