-- ===== src/Irq.antt =====
-- kernel/src/idt.rs: the handlers, what each counts, and which controller it tells that it is done. A
-- handler that prints and returns changes nothing here.
pub mod Table
pub mod History
pub mod SelfTest
pub mod Controllers
pub mod Tests
use rusty_core.Prelude.{
  ℕ, ◌+◌, ◌%◌, List, [], ◌∷◌, Outcome, done, panics, running, ◌>>=◌, add_u64, u64_mod,
}
use rusty_core.Apic.{Apic, eoi}
use rusty_core.Preempt.Stub.{Machine, stub}

-- The handlers that `IDT` names.
pub data Handler : Type 0 where
  breakpoint double_fault page_fault gp stack_segment invalid_opcode divide_error : Handler
  timer keyboard syscall_stub preempt_stub apic_error : Handler
  spurious spurious_pic_master spurious_pic_slave : Handler

-- The counters, the vectors with which `notify_end_of_interrupt` was called, latest first, the reads of
-- the keyboard's port, the LAPIC, and what the timer stub works on.
pub record Irq : Type 0 where
  pub timer_ticks : ℕ
  pub syscall_hits : ℕ
  pub spurious_hits : ℕ
  pub acks : List ℕ
  pub scancodes : ℕ
  pub apic : Apic
  pub machine : Machine

abbrev pub timer_vector : ℕ
timer_vector = 32

abbrev pub keyboard_vector : ℕ
keyboard_vector = 33

abbrev pub syscall_vector : ℕ
syscall_vector = 0x80

abbrev pub lapic_timer_vector : ℕ
lapic_timer_vector = 0xEF

abbrev pub lapic_error_vector : ℕ
lapic_error_vector = 0xFE

abbrev pub spurious_apic_vector : ℕ
spurious_apic_vector = 0xFF

abbrev pub spurious_pic_master_vector : ℕ
spurious_pic_master_vector = 39

abbrev pub spurious_pic_slave_vector : ℕ
spurious_pic_slave_vector = 47

-- `PICS.lock().notify_end_of_interrupt(vector)`.
abbrev pub ack : ℕ → Irq → Irq
ack vector s = record s { acks = vector ∷ s.acks }

-- `crate::apic::eoi()`, whose error is printed or dropped.
abbrev pub ack_lapic : Irq → Outcome Irq
ack_lapic s = eoi s.apic >>= λ r. done (record s { apic = r.1 })

-- `fetch_add(1)`.
abbrev pub bump : ℕ → ℕ
bump n = (n + 1) % u64_mod

-- `frames` is the address of `TASK_FRAMES`.
unfoldable pub handle : ℕ → Handler → Irq → Outcome Irq
unfolding eoi
handle frames Handler.breakpoint s = done s
handle frames Handler.double_fault s = panics
handle frames Handler.page_fault s = panics
handle frames Handler.gp s = panics
handle frames Handler.stack_segment s = panics
handle frames Handler.invalid_opcode s = panics
handle frames Handler.divide_error s = panics
handle frames Handler.timer s =
    done (ack timer_vector (record s { timer_ticks = bump s.timer_ticks }))
handle frames Handler.keyboard s =
    done (ack keyboard_vector (record s { scancodes = s.scancodes + 1 }))
handle frames Handler.syscall_stub s =
    add_u64 s.syscall_hits 1 >>= λ n. done (record s { syscall_hits = n })
handle frames Handler.preempt_stub s = done (record s { machine = stub frames s.machine })
handle frames Handler.apic_error s = ack_lapic s
handle frames Handler.spurious s = ack_lapic (record s { spurious_hits = bump s.spurious_hits })
handle frames Handler.spurious_pic_master s =
    done (record s { spurious_hits = bump s.spurious_hits })
handle frames Handler.spurious_pic_slave s =
    done (ack spurious_pic_master_vector (record s { spurious_hits = bump s.spurious_hits }))
