-- ===== src/Boot/Tests.antt =====
-- Instances of the theorems on the bring-up.
use rusty_core.Prelude.{ℕ, false, ◌/◌, ◌≡◌, refl, arith, min, done, [], ◌∷◌}
use rusty_core.Apic.{Apic}
use rusty_core.Preempt.Table.{Table, boot_table, set_eoi_base}
use rusty_core.Preempt.Stub.{Cpu}
use rusty_core.Boot.Panic.{panic, proof_block, ticks, IsFrozen, panic-IsFrozen}
use rusty_core.Boot.Soak.{soak_spin_guard}
use rusty_core.Boot.Promotion.{Ending, bring_up}
use rusty_core.Boot.Promotion.Masters.{IsReady, IsClock, IsMasked, Settled, bring_up-Settled}
use rusty_core.Boot.Promotion.Healthy.{IsHealthy, bring_up-healthy}

-- A clock that ticks every thousand loads.
abbrev pub ticking : ℕ → ℕ
ticking n = min (n / 1000) 1000000000

abbrev dead : ℕ → ℕ
dead n = 0

pub ticking-IsClock : IsClock ticking
ticking-IsClock = record { calm = λ n. ground arith; rises = λ i j le. ground arith }

dead-IsClock : IsClock dead
dead-IsClock = record { calm = λ n. omega arith; rises = λ i j le. omega arith }

abbrev mid_step : Table
mid_step = record boot_table { slot_used = 1; current_idx = 0; preemptible = 1; eoi_base = 0xB0 }

abbrev tick_cpu : Cpu
tick_cpu = record {
  gprs = record {
    r15 = 0;
    r14 = 0;
    r13 = 0;
    r12 = 0;
    r11 = 0;
    r10 = 0;
    r9 = 0;
    r8 = 0;
    rdi = 0;
    rsi = 0;
    rbp = 0;
    rbx = 0;
    rdx = 0;
    rcx = 0;
    rax = 0;
  };
  rsp = 0x2f000;
  stack = 0x2000 ∷ 8 ∷ 0x202 ∷ [];
}

abbrev measured_apic : Apic
measured_apic = record {
  lapic_virt = 0xFEE0_0000;
  ticks_per_10ms = 62500;
  master_mask = 0xF8;
  slave_mask = 0xFF;
  eoi_base = 0xFEE0_00B0;
  writes = [];
}

measured_apic-IsReady : IsReady measured_apic
measured_apic-IsReady = omega arith

ticking-IsHealthy : IsHealthy ticking ticking 100000
unfolding soak_spin_guard
ticking-IsHealthy = record {
  in_time = omega arith;
  reached = (omega arith, omega arith);
  loud = λ n h. omega arith;
  steady = λ n h. omega arith;
  gains = λ n h. ground arith;
}

-- A panic in the middle of a step, with the fence up, and a tick that follows it.
panic-IsFrozen_example :
    let printed = ticks 0x5000 (tick_cpu ∷ []) mid_step in
    let (lowered, halted, flag) = panic 0x5000 (tick_cpu ∷ []) [] mid_step in
    IsFrozen printed lowered
    × IsFrozen printed halted
    × IsFrozen printed (ticks 0x5000 (tick_cpu ∷ []) halted)
    × (flag ≡ false)
panic-IsFrozen_example = panic-IsFrozen 0x5000 (tick_cpu ∷ []) [] (tick_cpu ∷ []) mid_step

-- The statics after `apic::init`, before any task runs.
ready_to_run : proof_block 0x40_1000 (set_eoi_base 0xFFFF_A000_0000_00B0 boot_table) ≡ done tt
unfolding proof_block set_eoi_base
ready_to_run = refl

-- A LAPIC that never ticks.
bring_up-Settled_example :
    (e : Ending) × (s' : Apic) × (bring_up ticking dead measured_apic ≡ done (e, s'))
    × Settled ticking dead e measured_apic s'
bring_up-Settled_example =
    bring_up-Settled ticking dead measured_apic ticking-IsClock dead-IsClock measured_apic-IsReady

bring_up-healthy_example :
    (s' : Apic) × (bring_up ticking ticking measured_apic ≡ done (Ending.master_lapic, s'))
    × IsMasked 1 measured_apic s'
bring_up-healthy_example =
    bring_up-healthy ticking ticking 100000 measured_apic ticking-IsClock ticking-IsClock
      measured_apic-IsReady ticking-IsHealthy
