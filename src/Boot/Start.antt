-- ===== src/Boot/Start.antt =====
-- `kernel_main` of kernel/src/main.rs from its entry to the soak: the components are brought up one after
-- the other, and the first that fails ends the boot.
pub mod Masked
pub mod Booted
mod Tests
use rusty_core.Prelude.{
  ℕ, zero, suc, ◌+◌, Bool, true, false, ◌&&◌, Option, none, some, List, [], ◌∷◌, ◌++◌,
  if◌then◌else◌, Outcome, done, panics, running, ◌>>=◌, ◌>>◌, assert,
}
use rusty_core.Memory.Regions.{Region}
use rusty_core.Memory.Buddy.{Buddy}
use rusty_core.Memory.Mapping.{Paging, map_mmio_window}
use rusty_core.Memory.Mapping
use rusty_core.Memory.Bringup.{Memory}
use rusty_core.Memory.Bringup
use rusty_core.Segments.{Descriptor, Registers, Tss, new_tss}
use rusty_core.Segments
use rusty_core.Serial
use rusty_core.Apic.{Apic, Probe, Fault, Result, probe, calibrate, start_periodic}
use rusty_core.Apic
use rusty_core.Preempt.Table.{set_eoi_base}
use rusty_core.Irq.{Handler, Irq}
use rusty_core.Irq.Table.{deliver}
use rusty_core.Irq.SelfTest.{self_test}
use rusty_core.Irq.Controllers.{init_pics, init_timer}

-- What the loader, the configuration, the devices and the other crates contribute: the arguments of
-- the calls, in their order. `M` is the page tables, `G` the descriptor table.
pub record Platform (M G : Type 0) : Type 0 where
  pub append : G → Descriptor → Outcome (ℕ × G)
  pub df_stack : ℕ
  pub gdt : G
  pub initialize : Apic → Apic
  pub edx : ℕ
  pub msr : ℕ
  pub have_rsdp : Bool
  pub paging : Paging M Buddy
  pub offset : Option ℕ
  pub regions : List Region
  pub heap_size : ℕ
  pub self_tests : Bool
  pub lvt : ℕ
  pub clock : ℕ → ℕ
  pub ccr : ℕ → ℕ
  pub frames : ℕ
  pub fault : Handler
  pub between : List ℕ
  pub after : List ℕ

-- `.expect(…)` on what a function of the APIC returns.
abbrev pub expect_ok : {A : Type 0} → Result A × Apic → Outcome Apic
expect_ok (Result.ok a, s) = done s
expect_ok (Result.err e, s) = panics

-- `?` on the window hands its message on.
abbrev pub as_window : Mapping.Result ℕ → Result ℕ
as_window (Mapping.Result.ok base) = Result.ok base
as_window (Mapping.Result.err e) = Result.err (Fault.refused e)

-- `ports` are the writes of `serial::init` and `timer::init`, in order.
pub record Started (M G : Type 0) : Type 0 where
  pub segments : Registers G
  pub tss : Tss
  pub memory : Memory M
  pub ports : List (ℕ × ℕ)
  pub irq : Irq

module _ {M G : Type 0} (h : Platform M G) where
  abbrev pub probed : Probe
  probed = probe h.edx h.msr h.have_rsdp

  -- `apic::init` as a whole: the window is mapped only past its two checks.
  unfoldable pub init_apic : Memory M → Apic → Outcome ((Result (Unit {0}) × Apic) × Memory M)
  unfolding map_mmio_window Apic.init
  init_apic memory s =
      let mapped = do
        (base, m, b) ← map_mmio_window h.paging probed.base memory.mapper memory.allocator
        done
            (Apic.init probed (as_window base) h.lvt s, record memory { mapper = m; allocator = b })
      in if probed.present && probed.enabled
        then mapped
        else done (Apic.init probed (Result.err Fault.absent) h.lvt s, memory)

  -- The address for the end of interrupt is published to the stub too.
  abbrev pub publish : Apic → Irq → Irq
  publish apic s = record s {
    apic = apic;
    machine = record s.machine { table = set_eoi_base apic.eoi_base s.machine.table };
  }

  -- The two self-tests of the interrupts, and the start of the periodic timer.
  unfoldable pub try_irqs : Irq → Outcome Irq
  unfolding deliver self_test start_periodic
  try_irqs s = do
    s2 ← deliver h.frames h.fault 3 s
    s3 ← self_test h.frames h.fault h.between h.after s2
    apic ← expect_ok (start_periodic s3.apic)
    done (record s3 { apic = apic })

  -- From the local APIC on.
  unfoldable pub start_clocks : Memory M → Irq → Outcome (Memory M × List (ℕ × ℕ) × Irq)
  unfolding init_apic init_timer calibrate set_eoi_base try_irqs
  start_clocks memory s = do
    (r, memory2) ← init_apic memory s.apic
    apic ← expect_ok r
    let s1 = publish apic s
    (ports, apic2) ← init_timer false s1.apic
    apic3 ← expect_ok (calibrate h.clock h.ccr apic2)
    s2 ← try_irqs (record s1 { apic = apic3 })
    done (memory2, ports, s2)

  unfoldable pub start : M → Irq → Outcome (Started M G)
  unfolding Segments.init init_pics Bringup.init start_clocks
  start m s = do
    (segments, tss) ← Segments.init h.append h.df_stack h.gdt new_tss
    let s1 = record s { apic = init_pics h.initialize s.apic }
    assert probed.present
    memory ← Bringup.init h.paging h.offset h.regions h.heap_size h.self_tests m
    (memory2, ports, s2) ← start_clocks memory s1
    done (record {
      segments = segments;
      tss = tss;
      memory = memory2;
      ports = Serial.init ++ ports;
      irq = s2;
    })
