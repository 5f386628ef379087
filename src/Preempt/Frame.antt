-- ===== src/Preempt/Frame.antt =====
-- `FullFrame` of kernel/src/preempt.rs: what it takes to resume a task where the timer hit it.
use rusty_core.Prelude.{
  ℕ, ◌+◌, ◌-◌, ◌/◌, ◌%◌, ◌^◌, ◌<◌, ◌≤◌, ◌≡◌, refl, Bool, true, false, ◌&&◌, ◌||◌, not, arith,
  if◌then◌else◌, ltb, ◌==◌, Outcome, done, ◌>>=◌, ◌>>◌, assert, sub_u64, u64_mod, ◌⊎◌, ◌↔◌,
}

abbrev pub preempt_magic : ℕ
preempt_magic = 0x5052_4545_4D50_5434

pub record FullFrame : Type 0 where
  pub r15 : ℕ
  pub r14 : ℕ
  pub r13 : ℕ
  pub r12 : ℕ
  pub r11 : ℕ
  pub r10 : ℕ
  pub r9 : ℕ
  pub r8 : ℕ
  pub rdi : ℕ
  pub rsi : ℕ
  pub rbp : ℕ
  pub rbx : ℕ
  pub rdx : ℕ
  pub rcx : ℕ
  pub rax : ℕ
  pub rsp : ℕ
  pub rip : ℕ
  pub cs : ℕ
  pub rflags : ℕ
  pub magic : ℕ

abbrev pub zero_frame : FullFrame
zero_frame = record {
  r15 = 0;
  r14 = 0;
  r13 = 0;
  r12 = 0;
  r11 = 0;
  r10 = 0;
  r9 = 0;
  r8 = 0;
  rdi = 0;
  rsi = 0;
  rbp = 0;
  rbx = 0;
  rdx = 0;
  rcx = 0;
  rax = 0;
  rsp = 0;
  rip = 0;
  cs = 0;
  rflags = 0;
  magic = 0;
}

-- `FullFrame::fresh`.
unfoldable pub fresh : ℕ → ℕ → ℕ → Outcome FullFrame
fresh entry cs stack_top = do
  assert (stack_top % 16 == 0)
  rsp ← sub_u64 stack_top 8
  done
      (record zero_frame { rsp = rsp; rip = entry; cs = cs; rflags = 0x202; magic = preempt_magic })

-- `(self.rsp >> 47) & 1`.
abbrev pub sign_bit : ℕ → ℕ
sign_bit rsp = rsp / 2 ^ 47 % 2

unfoldable pub valid_for : FullFrame → ℕ → ℕ → Bool
valid_for f bottom top =
    if not (f.magic == preempt_magic)
    then false
    else if ltb f.rsp bottom || ltb top f.rsp
    then false
    else if (sign_bit f.rsp == 0) && not (f.rsp / 2 ^ 48 == 0)
    then false
    else if (sign_bit f.rsp == 1) && not (f.rsp / 2 ^ 48 == 0xFFFF)
    then false
    else true

-- A canonical address: bits 48 to 63 repeat bit 47.
abbrev pub IsCanonical : ℕ → Type 0
IsCanonical a = (a < 2 ^ 47) ⊎ ((2 ^ 64 ≤ a + 2 ^ 47) × (a < 2 ^ 64))

-- `valid_for` accepts exactly the frames that carry the magic and whose stack pointer is a canonical
-- address of the window, both ends included.
pub valid_for_iff :
    (f : FullFrame) (bottom top : ℕ)
    → f.rsp < u64_mod
    → (valid_for f bottom top ≡ true)
      ↔ ((f.magic ≡ preempt_magic) × (bottom ≤ f.rsp) × (f.rsp ≤ top) × IsCanonical f.rsp)
unfolding valid_for
valid_for_iff f bottom top small = (λ h. ground arith, λ h. ground arith)

-- A fresh frame on a 16-aligned, canonical stack of at least eight bytes passes its own check, and
-- would enter the trampoline with the parity that the ABI asks for; a misaligned top panics.
pub fresh-valid_for :
    (entry cs bottom top : ℕ)
    → top % 16 ≡ 0
    → bottom + 8 ≤ top
    → top < u64_mod
    → IsCanonical (top - 8)
    → (f : FullFrame) × (fresh entry cs top ≡ done f)
      × (valid_for f bottom top ≡ true)
      × (f.rsp % 16 ≡ 8)
      × (f.rip ≡ entry)
unfolding fresh valid_for
fresh-valid_for entry cs bottom top al room small can = (
  record zero_frame { rsp = top - 8; rip = entry; cs = cs; rflags = 0x202; magic = preempt_magic },
  ground arith,
  ground arith,
  omega arith,
  refl,
)
