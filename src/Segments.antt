-- ===== src/Segments.antt =====
-- The segments and the task state segment of kernel/src/gdt.rs. The descriptor table is that of the
-- x86_64 crate: `append` adds a descriptor and returns its selector.

pub mod Tests
use rusty_core.Prelude.{
  ℕ, zero, suc, ◌+◌, ◌-◌, ◌*◌, ◌%◌, ◌^◌, ◌<◌, ◌≤◌, ◌≡◌, ◌≢◌, refl, Bool, true, false, ◌||◌, arith,
  ltb, leb, ◌==◌, if◌then◌else◌, update, Outcome, done, panics, ◌>>=◌, ◌>>◌, assert, add_u64,
}
use rusty_core.Memory.Mapping.{virt_addr}

abbrev pub double_fault_ist_index : ℕ
double_fault_ist_index = 0

abbrev pub df_stack_size : ℕ
df_stack_size = 4096 * 5

-- The two tables of the task state segment.
pub record Tss : Type 0 where
  pub interrupt_stack_table : ℕ → ℕ
  pub privilege_stack_table : ℕ → ℕ

-- `TaskStateSegment::new`.
abbrev pub new_tss : Tss
new_tss = record { interrupt_stack_table = λ _. 0; privilege_stack_table = λ _. 0 }

-- `df_stack` is the address of the static `DF_STACK`. The sum is checked to be an address too.
unfoldable pub init_tss_fields : ℕ → Tss → Outcome Tss
unfolding virt_addr
init_tss_fields df_stack tss = do
  stack_start ← virt_addr df_stack
  sum ← add_u64 stack_start df_stack_size
  top ← virt_addr sum
  assert (top % 16 == 0)
  done (record tss {
    interrupt_stack_table = update tss.interrupt_stack_table double_fault_ist_index top;
  })

unfoldable pub set_rsp0 : ℕ → Tss → Outcome Tss
unfolding virt_addr
set_rsp0 top tss = do
  addr ← virt_addr top
  done (record tss { privilege_stack_table = update tss.privilege_stack_table 0 addr })

pub data Descriptor : Type 0 where
  kernel_code kernel_data tss_segment : Descriptor

pub record Selectors : Type 0 where
  pub code_selector : ℕ
  pub data_selector : ℕ
  pub tss_selector : ℕ

-- The registers that `init` loads; `gdtr` is the table.
pub record Registers (G : Type 0) : Type 0 where
  pub gdtr : G
  pub cs : ℕ
  pub ds : ℕ
  pub es : ℕ
  pub ss : ℕ
  pub tr : ℕ

module _ {G : Type 0} (append : G → Descriptor → Outcome (ℕ × G)) where
  -- The lazy static `GDT`, which fills the fields of the segment first.
  unfoldable pub build_gdt : ℕ → G → Tss → Outcome (G × Selectors × Tss)
  unfolding init_tss_fields
  build_gdt df_stack gdt tss = do
    tss2 ← init_tss_fields df_stack tss
    (code, gdt1) ← append gdt Descriptor.kernel_code
    (data_, gdt2) ← append gdt1 Descriptor.kernel_data
    (task, gdt3) ← append gdt2 Descriptor.tss_segment
    done (gdt3, record { code_selector = code; data_selector = data_; tss_selector = task }, tss2)

  unfoldable pub init : ℕ → G → Tss → Outcome (Registers G × Tss)
  unfolding build_gdt
  init df_stack gdt tss = do
    (table, selectors, tss2) ← build_gdt df_stack gdt tss
    done (
      record {
        gdtr = table;
        cs = selectors.code_selector;
        ds = selectors.data_selector;
        es = selectors.data_selector;
        ss = selectors.data_selector;
        tr = selectors.tss_selector;
      },
      tss2,
    )

-- The stack of the double fault lies aligned in the low half, and the switches of tasks leave it alone.
pub init_tss_fields-set_rsp0 :
    (df_stack top : ℕ) (tss : Tss)
    → df_stack % 16 ≡ 0
    → df_stack + df_stack_size < 2 ^ 47
    → top < 2 ^ 47
    → (t u : Tss) × (init_tss_fields df_stack tss ≡ done t)
      × (set_rsp0 top t ≡ done u)
      × (u.interrupt_stack_table double_fault_ist_index ≡ df_stack + df_stack_size)
      × (u.privilege_stack_table 0 ≡ top)
unfolding init_tss_fields set_rsp0 virt_addr
init_tss_fields-set_rsp0 df_stack top tss aligned low low2 = (
  record tss {
    interrupt_stack_table =
        update tss.interrupt_stack_table double_fault_ist_index (df_stack + df_stack_size);
  },
  record {
    interrupt_stack_table =
        update tss.interrupt_stack_table double_fault_ist_index (df_stack + df_stack_size);
    privilege_stack_table = update tss.privilege_stack_table 0 top;
  },
  ground arith,
  ground arith,
  refl,
  refl,
)
