-- ===== src/Segments/Tests.antt =====
-- The segments on a table that gives a selector of eight bytes to each descriptor.
use rusty_core.Prelude.{ℕ, ◌+◌, ◌≡◌, refl, Outcome, update, done}
use rusty_core.Segments.{Descriptor, Registers, Tss, new_tss, double_fault_ist_index, init}

-- The table is its size in bytes; the null descriptor comes first.
abbrev pub append : ℕ → Descriptor → Outcome (ℕ × ℕ)
append size Descriptor.kernel_code = done (size, size + 8)
append size Descriptor.kernel_data = done (size, size + 8)
append size Descriptor.tss_segment = done (size, size + 16)

abbrev pub loaded : Registers ℕ
loaded = record { gdtr = 40; cs = 8; ds = 16; es = 16; ss = 16; tr = 24 }

abbrev booted : Tss
booted = record new_tss {
  interrupt_stack_table = update new_tss.interrupt_stack_table double_fault_ist_index 0x25000;
}

segments_loaded : init append 0x20000 8 new_tss ≡ done (loaded, booted)
unfolding init
segments_loaded = refl
