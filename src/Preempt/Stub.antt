-- ===== src/Preempt/Stub.antt =====
-- `lapic_preempt_stub` of kernel/src/preempt.rs, instruction by instruction, from its entry to its
-- `iretq`. The stack is the list of the words from `rsp` upwards; on top lie the words that the
-- processor has pushed, of which the stub reads rip, cs and rflags.
pub mod Spill
pub mod Resume
use rusty_core.Prelude.{
  ℕ, zero, suc, ◌+◌, ◌-◌, ◌*◌, ◌/◌, ◌%◌, ◌^◌, Bool, true, false, ◌&&◌, List, [], ◌∷◌, if◌then◌else◌,
  ltb, ◌==◌, not, update, u64_mod, get_elem?, get_or,
}
use rusty_core.Preempt.Frame.{FullFrame, preempt_magic}
use rusty_core.Preempt.Bitmap.{bit_test}
use rusty_core.Preempt.Table.{Table, max_tasks}

pub data Reg : Type 0 where
  r15 r14 r13 r12 r11 r10 r9 r8 rdi rsi rbp rbx rdx rcx rax : Reg

pub record Gprs : Type 0 where
  pub r15 : ℕ
  pub r14 : ℕ
  pub r13 : ℕ
  pub r12 : ℕ
  pub r11 : ℕ
  pub r10 : ℕ
  pub r9 : ℕ
  pub r8 : ℕ
  pub rdi : ℕ
  pub rsi : ℕ
  pub rbp : ℕ
  pub rbx : ℕ
  pub rdx : ℕ
  pub rcx : ℕ
  pub rax : ℕ

abbrev pub read : Gprs → Reg → ℕ
read g Reg.r15 = g.r15
read g Reg.r14 = g.r14
read g Reg.r13 = g.r13
read g Reg.r12 = g.r12
read g Reg.r11 = g.r11
read g Reg.r10 = g.r10
read g Reg.r9 = g.r9
read g Reg.r8 = g.r8
read g Reg.rdi = g.rdi
read g Reg.rsi = g.rsi
read g Reg.rbp = g.rbp
read g Reg.rbx = g.rbx
read g Reg.rdx = g.rdx
read g Reg.rcx = g.rcx
read g Reg.rax = g.rax

abbrev pub write : Gprs → Reg → ℕ → Gprs
write g Reg.r15 v = record g { r15 = v }
write g Reg.r14 v = record g { r14 = v }
write g Reg.r13 v = record g { r13 = v }
write g Reg.r12 v = record g { r12 = v }
write g Reg.r11 v = record g { r11 = v }
write g Reg.r10 v = record g { r10 = v }
write g Reg.r9 v = record g { r9 = v }
write g Reg.r8 v = record g { r8 = v }
write g Reg.rdi v = record g { rdi = v }
write g Reg.rsi v = record g { rsi = v }
write g Reg.rbp v = record g { rbp = v }
write g Reg.rbx v = record g { rbx = v }
write g Reg.rdx v = record g { rdx = v }
write g Reg.rcx v = record g { rcx = v }
write g Reg.rax v = record g { rax = v }

pub record Cpu : Type 0 where
  pub gprs : Gprs
  pub rsp : ℕ
  pub stack : List ℕ

-- `push reg` and `pop reg`; the stack pointer wraps as a 64-bit word.
unfoldable pub push : Reg → Cpu → Cpu
push r c = record {
  gprs = c.gprs;
  rsp = (c.rsp + u64_mod - 8) % u64_mod;
  stack = read c.gprs r ∷ c.stack;
}

unfoldable pub pop : Reg → Cpu → Cpu
pop r c = elim c.stack [
  | [] ↦ c
  | v ∷ rest ↦ record { gprs = write c.gprs r v; rsp = (c.rsp + 8) % u64_mod; stack = rest }
]

unfoldable pub push_all : List Reg → Cpu → Cpu
push_all [] c = c
push_all (r ∷ rs) c = push_all rs (push r c)

unfoldable pub pop_all : List Reg → Cpu → Cpu
pop_all [] c = c
pop_all (r ∷ rs) c = pop_all rs (pop r c)

-- Step 0: "Save EVERY GPR before using even one as scratch."
abbrev pub spill_order : List Reg
spill_order =
    Reg.r15 ∷ Reg.r14 ∷ Reg.r13 ∷ Reg.r12 ∷ Reg.r11 ∷ Reg.r10 ∷ Reg.r9 ∷ Reg.r8 ∷ Reg.rdi ∷ Reg.rsi
    ∷ Reg.rbp ∷ Reg.rbx ∷ Reg.rdx ∷ Reg.rcx ∷ Reg.rax ∷ []

-- Step 3: the pops.
abbrev pub fill_order : List Reg
fill_order =
    Reg.rax ∷ Reg.rcx ∷ Reg.rdx ∷ Reg.rbx ∷ Reg.rbp ∷ Reg.rsi ∷ Reg.rdi ∷ Reg.r8 ∷ Reg.r9 ∷ Reg.r10
    ∷ Reg.r11 ∷ Reg.r12 ∷ Reg.r13 ∷ Reg.r14 ∷ Reg.r15 ∷ []

-- The word at `[rsp + off]`.
abbrev pub load : ℕ → Cpu → ℕ
load off c = get_or c.stack (off / 8) 0

-- Step 2: the frame that the stub copies into the table.
unfoldable pub stashed : Cpu → FullFrame
stashed c = record {
  r15 = load 0x70 c;
  r14 = load 0x68 c;
  r13 = load 0x60 c;
  r12 = load 0x58 c;
  r11 = load 0x50 c;
  r10 = load 0x48 c;
  r9 = load 0x40 c;
  r8 = load 0x38 c;
  rdi = load 0x30 c;
  rsi = load 0x28 c;
  rbp = load 0x20 c;
  rbx = load 0x18 c;
  rdx = load 0x10 c;
  rcx = load 0x08 c;
  rax = load 0x00 c;
  rsp = (c.rsp + 0x90) % u64_mod;
  rip = load 0x78 c;
  cs = load 0x80 c;
  rflags = load 0x88 c;
  magic = preempt_magic;
}

-- The processor, the statics, and the addresses to which the stub has written an end of interrupt.
pub record Machine : Type 0 where
  pub cpu : Cpu
  pub table : Table
  pub eois : List ℕ

-- Step 1: `lock inc` of the tick counter.
unfoldable pub tick : Table → Table
tick t = record t { apic_ticks = (t.apic_ticks + 1) % u64_mod }

-- The tests before the stash: the fence, the index, and the occupancy bit.
unfoldable pub yanks : Table → Bool
yanks t =
    not (t.preemptible == 0) && (ltb t.current_idx max_tasks && bit_test t.slot_used t.current_idx)

-- The stash; `frames` is the address of `TASK_FRAMES`. The scratch registers hold what the copy leaves.
unfoldable pub stash : ℕ → Cpu → Table → Cpu × Table
stash frames c t = (
  record c {
    gprs = record c.gprs {
      rax = preempt_magic;
      rcx = t.slot_used;
      rdi = (frames + t.current_idx * 160) % u64_mod;
    };
  },
  record t {
    task_frames = update t.task_frames t.current_idx (stashed c);
    preempt_switches = (t.preempt_switches + 1) % u64_mod;
  },
)

-- Label 2: the end of interrupt, where its address is published.
unfoldable pub end_of_interrupt : Machine → Machine
end_of_interrupt m = record m {
  cpu = record m.cpu { gprs = record m.cpu.gprs { rax = m.table.eoi_base } };
  eois = if m.table.eoi_base == 0 then m.eois else m.table.eoi_base ∷ m.eois;
}

-- What the failed tests leave in the scratch registers, which the pops overwrite.
unfoldable pub skipped : Table → Cpu → Cpu
skipped t c = record c {
  gprs = record c.gprs {
    rax = if t.preemptible == 0 then c.gprs.rax else t.current_idx;
    rcx =
        if not (t.preemptible == 0) && ltb t.current_idx max_tasks then t.slot_used else c.gprs.rcx;
  };
}

unfoldable pub stub : ℕ → Machine → Machine
unfolding tick
stub frames m =
    let c = push_all spill_order m.cpu in
    let t = tick m.table in
    let (c', t') = if yanks t then stash frames c t else (skipped t c, t) in
    let m' = end_of_interrupt (record { cpu = c'; table = t'; eois = m.eois }) in
    record m' { cpu = pop_all fill_order m'.cpu }
