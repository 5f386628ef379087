-- ===== src/Irq/Controllers.antt =====
-- kernel/src/interrupts.rs and kernel/src/timer.rs: the PICs at boot, and the PIT that drives IRQ 0. A
-- port write is the port and the byte.
use rusty_core.Prelude.Tables.{every, every-at}
use rusty_core.Prelude.{
  ◌==◌, ==_iff, eq-false, lt→ltb, ◌⊎◌, ℕ, ◌+◌, ◌*◌, ◌/◌, ◌%◌, ◌<◌, ◌≤◌, ◌^◌, ◌≡◌, refl, bit_and,
  Bool, true, false, not, ltb, Outcome, done, panics, ◌>>=◌, ◌>>◌, assert, List, [], ◌∷◌, arith,
}
use rusty_core.Apic.{Apic}
use rusty_core.Apic.Masks.{bit_and-clears}

abbrev pub pic_1_offset : ℕ
pic_1_offset = 32

abbrev pub pic_2_offset : ℕ
pic_2_offset = pic_1_offset + 8

-- `init`; `initialize` is that of the pic8259 crate.
unfoldable pub init_pics : (Apic → Apic) → Apic → Apic
init_pics initialize s = record (initialize s) { master_mask = 0xFF; slave_mask = 0xFF }

abbrev pub pit_cmd : ℕ
pit_cmd = 0x43

abbrev pub pit_ch0 : ℕ
pit_ch0 = 0x40

abbrev pub pit_hz : ℕ
pit_hz = 1193182

abbrev pub target_hz : ℕ
target_hz = 100

-- `u16::try_from(input / target).expect(…)`; the division panics on zero.
abbrev pub divisor : ℕ → ℕ → Outcome ℕ
divisor input target = do
  assert (not (target == 0))
  assert (ltb (input / target) 65536)
  done (input / target)

-- `init` for a clock of `input` Hz; `enabled` is the interrupt flag.
unfoldable pub program : ℕ → ℕ → Bool → Apic → Outcome (List (ℕ × ℕ) × Apic)
program input target enabled s = do
  d ← divisor input target
  assert (not enabled)
  done (
    (pit_cmd, 0x36) ∷ (pit_ch0, bit_and d 0xFF) ∷ (pit_ch0, d / 2 ^ 8) ∷ [],
    record s { master_mask = bit_and s.master_mask 254 },
  )

unfoldable pub init_timer : Bool → Apic → Outcome (List (ℕ × ℕ) × Apic)
unfolding program
init_timer enabled s = program pit_hz target_hz enabled s

low_byte_table : every (λ d. bit_and d 0xFF == d % 256) 65536 ≡ true
unfolding every
low_byte_table = refl

low_byte : (d : ℕ) → d < 65536 → bit_and d 0xFF ≡ d % 256
low_byte d small = (==_iff _ _).0 (every-at _ 65536 small low_byte_table)

-- For every input clock and every rate, the timer is programmed exactly when the rate is not zero, the divisor fits
-- sixteen bits, and interrupts are disabled; otherwise the kernel panics. The two data bytes, low byte first, then
-- make up the divisor after the command for channel 0 in mode 3, and of the two masks only IRQ 0 has
-- changed: it is open.
pub program-opens :
    (input target : ℕ) (enabled : Bool) (s : Apic)
    → s.master_mask < 256
    → (0 < target
        → input / target < 65536
        → enabled ≡ false
        → (low : ℕ) × (high : ℕ) × (s' : Apic) × (program input target enabled s
            ≡ done ((pit_cmd, 0x36) ∷ (pit_ch0, low) ∷ (pit_ch0, high) ∷ [], s'))
          × (low < 256)
          × (high < 256)
          × (low + 256 * high ≡ input / target)
          × (s'.master_mask % 2 ≡ 0)
          × (s'.master_mask / 2 ≡ s.master_mask / 2)
          × (s'.slave_mask ≡ s.slave_mask))
      × ((target ≡ 0) ⊎ (65536 ≤ input / target) ⊎ (enabled ≡ true)
          → program input target enabled s ≡ panics)
unfolding program
program-opens input target enabled s byte =
    let cleared = bit_and-clears s.master_mask byte in
    (
      λ some_rate fits off.
          let low = low_byte (input / target) fits in
          (
            bit_and (input / target) 0xFF,
            input / target / 2 ^ 8,
            record s { master_mask = bit_and s.master_mask 254 },
            rw (eq-false target 0 (λ z. omega arith), lt→ltb (input / target) 65536 fits, off) refl,
            omega (arith, low),
            omega arith,
            omega (arith, low),
            cleared.0,
            cleared.1,
            refl,
          ),
      λ bad. ground arith,
    )
