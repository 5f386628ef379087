-- ===== src/Apic/Masks.antt =====
-- What the promotion and the rollback do to the masks of the PICs.
use rusty_core.Prelude.Tables.{every, every-at}
use rusty_core.Prelude.{
  ℕ, ◌/◌, ◌%◌, ◌<◌, ◌≡◌, refl, ap, ◌∙◌, bit_or, bit_and, true, ◌==◌, arith, ◌&&◌,
}
use rusty_core.Apic.{Result, Apic, promote, rollback_to_pit}

masks_table :
    every
      (λ m.
        (bit_and (bit_or m 1) 254 == bit_and m 254)
        && ((bit_or m 1 % 2 == 1) && (bit_or m 1 / 2 == m / 2)))
      256
    ≡ true
unfolding every
masks_table = refl

clear_table : every (λ m. (bit_and m 254 % 2 == 0) && (bit_and m 254 / 2 == m / 2)) 256 ≡ true
unfolding every
clear_table = refl

-- The byte that the rollback writes: line 0 open, the others as they were.
pub bit_and-clears : (m : ℕ) → m < 256 → (bit_and m 254 % 2 ≡ 0) × (bit_and m 254 / 2 ≡ m / 2)
bit_and-clears m byte =
    let checked = every-at _ 256 byte clear_table in
    (ground (arith, checked), ground (arith, checked))

-- Once the clock is calibrated, the promotion masks IRQ 0 and no other line of the master PIC, and
-- leaves the slave alone; the rollback then unmasks IRQ 0 and leaves the other lines, those of the slave
-- included, as they were.
pub promote-rollback :
    (s : Apic)
    → 0 < s.lapic_virt
    → 0 < s.ticks_per_10ms
    → s.master_mask < 256
    → ((promote s).0 ≡ Result.ok tt)
      × ((promote s).1.master_mask % 2 ≡ 1)
      × ((promote s).1.master_mask / 2 ≡ s.master_mask / 2)
      × ((rollback_to_pit (promote s).1).master_mask ≡ bit_and s.master_mask 254)
      × ((promote s).1.slave_mask ≡ s.slave_mask)
      × ((rollback_to_pit (promote s).1).master_mask % 2 ≡ 0)
      × ((rollback_to_pit (promote s).1).master_mask / 2 ≡ s.master_mask / 2)
      × ((rollback_to_pit (promote s).1).slave_mask ≡ s.slave_mask)
unfolding promote rollback_to_pit
promote-rollback s win rate byte =
    let checked = every-at _ 256 byte masks_table in
    let (low, high) = bit_and-clears s.master_mask byte in
    let back : (rollback_to_pit (promote s).1).master_mask ≡ bit_and s.master_mask 254 =
      ground (arith, checked) in
    (
      ground arith,
      ground (arith, checked),
      ground (arith, checked),
      back,
      ground arith,
      ap (λ (m : ℕ). m % 2) back ∙ low,
      ap (λ (m : ℕ). m / 2) back ∙ high,
      ground arith,
    )
