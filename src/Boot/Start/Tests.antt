-- ===== src/Boot/Start/Tests.antt =====
-- The boot of a small machine, up to the soak and past it.
use rusty_core.Prelude.{
  ℕ, ◌+◌, ◌*◌, ◌%◌, ◌^◌, ◌≡◌, refl, true, Option, none, some, List, [], ◌∷◌, Outcome, done, panics,
  running, u64_mod,
}
use rusty_core.Memory.Mapping.{phys_mem_offset, map_heap}
use rusty_core.Memory.Bringup.{probe_vec, range_from}
use rusty_core.Memory.Bringup.Tests.{Space, paging, regions}
use rusty_core.Memory.Buddy.{Buddy, allocate_frame, free_frames, activate, deallocate_frame}
use rusty_core.Memory.Regions.{usable_summary}
use rusty_core.Memory.SelfTest.{self_test_reclaim}
use rusty_core.Prelude.Vecs.{push, pop, position, swap_remove}
use rusty_core.Memory.Cursor.{walk}
use rusty_core.Memory.Buddy
use rusty_core.Segments.{new_tss}
use rusty_core.Segments.Tests.{append, loaded}
use rusty_core.Apic.{Apic, probe}
use rusty_core.Irq.{Handler, Irq}
use rusty_core.Irq.Table.{history}
use rusty_core.Irq.Tests.{booted}
use rusty_core.Boot.Start.{Platform, Started, start}
use rusty_core.Boot.Start.Booted.{IsBooted, start-Settled}
use rusty_core.Boot.Promotion.{Ending, bring_up}
use rusty_core.Boot.Promotion.Masters.{Settled}
use rusty_core.Boot.Tests.{ticking, ticking-IsClock}

abbrev machine : Platform Space ℕ
machine = record {
  append = append;
  df_stack = 0x20000;
  gdt = 8;
  initialize = λ s. s;
  edx = 2 ^ 9;
  msr = 0xFEE0_0900;
  have_rsdp = true;
  paging = paging;
  offset = some phys_mem_offset;
  regions = regions;
  heap_size = 0x1000;
  self_tests = true;
  lvt = 0;
  clock = λ n. n * 10 % u64_mod;
  ccr = λ round. 4294000000 + round;
  frames = 0x5000;
  fault = Handler.gp;
  between = 32 ∷ [];
  after = [];
}

-- The statics before the boot.
abbrev cold : Irq
cold = record booted {
  apic = record {
    lapic_virt = 0;
    ticks_per_10ms = 0;
    master_mask = 0;
    slave_mask = 0;
    eoi_base = 0;
    writes = [];
  };
}

-- What a boot ends with: the rate, the masks, the ticks and the writes to the device.
report : Outcome (Started Space ℕ) → Option (ℕ × ℕ × ℕ × List (ℕ × ℕ))
report (done r) =
    some (r.irq.apic.ticks_per_10ms, r.irq.apic.master_mask, r.irq.timer_ticks, r.irq.apic.writes)
report panics = none
report running = none

-- IRQ 0 is the one open line; one tick came between the two system calls. The writes are, latest first, the
-- rate and the mode of the timer, the three counts of the calibration, the divisor, and what enables the device.
small_machine :
    report (start machine (λ _. none) cold)
    ≡ some (
      96729,
      0xFE,
      1,
      (0xFFFF_A000_0000_0380, 96729)
          ∷ (0xFFFF_A000_0000_0320, 0x2_00EF)
          ∷ (0xFFFF_A000_0000_0380, 0xFFFF_FFFF)
          ∷ (0xFFFF_A000_0000_0380, 0xFFFF_FFFF)
          ∷ (0xFFFF_A000_0000_0380, 0xFFFF_FFFF)
          ∷ (0xFFFF_A000_0000_03E0, 3)
          ∷ (0xFFFF_A000_0000_0080, 0)
          ∷ (0xFFFF_A000_0000_0320, 0x1_0000)
          ∷ (0xFFFF_A000_0000_00F0, 0x1FF)
          ∷ [],
    )
unfolding report start map_heap self_test_reclaim activate allocate_frame free_frames
    deallocate_frame Buddy.new usable_summary push probe_vec range_from Buddy.bump_one walk
    Buddy.hand_out Buddy.carve_regions Buddy.carve_region Buddy.carve Buddy.block_size
    Buddy.pick_order Buddy.take_frame Buddy.take_block pop Buddy.merge position probe swap_remove
    history
small_machine = refl

-- With the LAPIC disabled in its base register the boot ends before the soak.
disabled : report (start (record machine { msr = 0xFEE0_0000 }) (λ _. none) cold) ≡ none
unfolding report start map_heap self_test_reclaim activate allocate_frame free_frames
    deallocate_frame Buddy.new usable_summary push probe_vec range_from Buddy.bump_one walk
    Buddy.hand_out Buddy.carve_regions Buddy.carve_region Buddy.carve Buddy.block_size
    Buddy.pick_order Buddy.take_frame Buddy.take_block pop Buddy.merge position probe swap_remove
    history
disabled = refl

abbrev other : Started Space ℕ
other = record {
  segments = loaded;
  tss = new_tss;
  memory = record { mapper = λ _. none; allocator = Buddy.new []; usable = (0, 0); heap = (0, 0) };
  ports = [];
  irq = cold;
}

-- What the boot returns; `other` is never taken.
abbrev started : Started Space ℕ
started = elim (start machine (λ _. none) cold) [ done r ↦ r | _ ↦ other ]

ran : start machine (λ _. none) cold ≡ done started
unfolding start map_heap self_test_reclaim activate allocate_frame free_frames deallocate_frame
    Buddy.new usable_summary push probe_vec range_from Buddy.bump_one walk Buddy.hand_out
    Buddy.carve_regions Buddy.carve_region Buddy.carve Buddy.block_size Buddy.pick_order
    Buddy.take_frame Buddy.take_block pop Buddy.merge position probe swap_remove history
ran = refl

start-Settled_example :
    IsBooted machine started.irq
    × (e : Ending) × (s' : Apic) × (bring_up ticking ticking started.irq.apic ≡ done (e, s'))
    × Settled ticking ticking e started.irq.apic s'
start-Settled_example =
    start-Settled machine (λ _. none) cold started ticking ticking ran ticking-IsClock
      ticking-IsClock
