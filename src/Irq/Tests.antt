-- ===== src/Irq/Tests.antt =====
-- Instances of the theorems on the interrupts, and the masks after boot.
use rusty_core.Prelude.{
  ℕ, ◌+◌, ◌*◌, ◌/◌, ◌%◌, ◌<◌, ◌≤◌, ◌≡◌, ◌⊎◌, refl, inl, inr, Bool, true, false, List, [], ◌∷◌, done,
  panics, arith,
}
use rusty_core.Apic.{Apic}
use rusty_core.Preempt.Table.{boot_table}
use rusty_core.Preempt.Stub.{Gprs}
use rusty_core.Irq.{Handler, Irq}
use rusty_core.Irq.Table.{deliver}
use rusty_core.Irq.History.{IsRoomy, IsServedBy}
use rusty_core.Irq.SelfTest.{fired, self_test, self_test-passes}
use rusty_core.Irq.Controllers.{init_pics, init_timer, pit_hz, target_hz, program, program-opens}

abbrev pub zero_gprs : Gprs
zero_gprs = record {
  r15 = 0;
  r14 = 0;
  r13 = 0;
  r12 = 0;
  r11 = 0;
  r10 = 0;
  r9 = 0;
  r8 = 0;
  rdi = 0;
  rsi = 0;
  rbp = 0;
  rbx = 0;
  rdx = 0;
  rcx = 0;
  rax = 0;
}

abbrev pub booted : Irq
booted = record {
  timer_ticks = 0;
  syscall_hits = 0;
  spurious_hits = 0;
  acks = [];
  scancodes = 0;
  apic = record {
    lapic_virt = 0xFFFF_A000_0000_0000;
    ticks_per_10ms = 62500;
    master_mask = 0xFF;
    slave_mask = 0xFF;
    eoi_base = 0xFFFF_A000_0000_00B0;
    writes = [];
  };
  machine = record {
    cpu = record { gprs = zero_gprs; rsp = 0x2f000; stack = 0x2000 ∷ 8 ∷ 0x202 ∷ [] };
    table = record boot_table { eoi_base = 0xFFFF_A000_0000_00B0 };
    eois = [];
  };
}

booted-IsRoomy : (n : ℕ) → n < 1000 → IsRoomy n booted
booted-IsRoomy n small = record {
  mapped = omega arith;
  window = omega arith;
  published = λ z. omega arith;
  stack = omega arith;
  pointer = omega arith;
  timer = omega arith;
  apic_timer = omega arith;
  syscalls = omega arith;
  noise = omega arith;
}

-- A tick of each clock, and the two phantoms of the PICs.
abbrev noisy : List ℕ
noisy = 32 ∷ 0xEF ∷ 39 ∷ 47 ∷ []

-- A vector without a gate ends in a panic, whichever exception the processor takes for it.
stray_vector : deliver 0x5000 Handler.double_fault 77 booted ≡ panics
unfolding deliver
stray_vector = refl

-- A timer interrupt arrives between the two calls.
self_test-passes_example :
    (booted.syscall_hits ≡ 0
      → (s2 : Irq) × (self_test 0x5000 Handler.gp (32 ∷ []) [] booted ≡ done s2)
        × (s2.syscall_hits ≡ 2)
        × IsServedBy (fired (32 ∷ []) []) booted s2)
    × (0 < booted.syscall_hits → self_test 0x5000 Handler.gp (32 ∷ []) [] booted ≡ panics)
self_test-passes_example =
    self_test-passes 0x5000 Handler.gp (32 ∷ []) [] booted ((inr (inl refl), tt), omega arith)
      (tt, omega arith) (booted-IsRoomy 3 (omega arith))

program-opens_example :
    (0 < 100
      → 1193182 / 100 < 65536
      → false ≡ false
      → (low : ℕ) × (high : ℕ) × (s' : Apic) × (program pit_hz target_hz false booted.apic
          ≡ done ((0x43, 0x36) ∷ (0x40, low) ∷ (0x40, high) ∷ [], s'))
        × (low < 256)
        × (high < 256)
        × (low + 256 * high ≡ 1193182 / 100)
        × (s'.master_mask % 2 ≡ 0)
        × (s'.master_mask / 2 ≡ 0xFF / 2)
        × (s'.slave_mask ≡ 0xFF))
    × ((◌≡◌ {A = ℕ} 100 0) ⊎ (65536 ≤ 1193182 / 100) ⊎ (◌≡◌ {A = Bool} false true)
        → program pit_hz target_hz false booted.apic ≡ panics)
program-opens_example = program-opens pit_hz target_hz false booted.apic (omega arith)

-- The PICs are masked whole, and then the timer's line opens.
boot_masks :
    init_timer false (init_pics (λ s. s) booted.apic)
    ≡ done (
      (0x43, 0x36) ∷ (0x40, 155) ∷ (0x40, 46) ∷ [],
      record booted.apic { master_mask = 0xFE; slave_mask = 0xFF },
    )
unfolding init_timer init_pics
boot_masks = refl
