-- ===== src/Irq/Table.antt =====
-- The interrupt descriptor table of kernel/src/idt.rs. The vectors of the processor's exceptions are
-- those that the architecture gives them.
use rusty_core.Prelude.{
  ℕ, Option, none, some, if◌then◌else◌, ◌==◌, Outcome, done, ◌>>=◌, List, [], ◌∷◌,
}
use rusty_core.Irq.{
  Handler, Irq, timer_vector, keyboard_vector, syscall_vector, lapic_timer_vector,
  lapic_error_vector, spurious_apic_vector, spurious_pic_master_vector, spurious_pic_slave_vector,
  handle,
}

abbrev pub Entry : Type 0
Entry = ℕ × Handler

-- The entries that the initialiser of `IDT` sets.
abbrev pub entries : List Entry
entries =
    (3, Handler.breakpoint)
    ∷ (8, Handler.double_fault)
    ∷ (14, Handler.page_fault)
    ∷ (13, Handler.gp)
    ∷ (12, Handler.stack_segment)
    ∷ (6, Handler.invalid_opcode)
    ∷ (0, Handler.divide_error)
    ∷ (timer_vector, Handler.timer)
    ∷ (keyboard_vector, Handler.keyboard)
    ∷ (syscall_vector, Handler.syscall_stub)
    ∷ (lapic_timer_vector, Handler.preempt_stub)
    ∷ (lapic_error_vector, Handler.apic_error)
    ∷ (spurious_apic_vector, Handler.spurious)
    ∷ (spurious_pic_master_vector, Handler.spurious_pic_master)
    ∷ (spurious_pic_slave_vector, Handler.spurious_pic_slave)
    ∷ []

unfoldable pub find : ℕ → List Entry → Option Handler
find v [] = none
find v ((w, h) ∷ rest) = if v == w then some h else find v rest

-- One interrupt. `fault` is the handler that the processor enters when the gate of the vector is not
-- present.
unfoldable pub deliver : ℕ → Handler → ℕ → Irq → Outcome Irq
unfolding find handle
deliver frames fault v s = elim (find v entries) [
  | some h ↦ handle frames h s
  | none ↦ handle frames fault s
]

-- A history of interrupts, in the order of their arrival.
unfoldable pub history : ℕ → Handler → List ℕ → Irq → Outcome Irq
unfolding deliver
history frames fault [] s = done s
history frames fault (v ∷ vs) s = deliver frames fault v s >>= history frames fault vs
