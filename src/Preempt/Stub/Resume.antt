-- ===== src/Preempt/Stub/Resume.antt =====
-- What one timer interrupt does, seen from the interrupted code and from the table.
use rusty_core.Prelude.{
  ℕ, ◌+◌, ◌%◌, ◌<◌, ◌≤◌, ◌≡◌, ◌≢◌, refl, ap, true, false, ◌∷◌, arith, u64_mod, get_or, Bool-cases,
  inl, inr, update, subst, ◌↔◌,
}
use rusty_core.Preempt.Frame.{FullFrame, preempt_magic, IsCanonical, valid_for_iff}
use rusty_core.Preempt.Bitmap.{occupied, bit_test-occupied}
use rusty_core.Preempt.Table.{Table, max_tasks}
use rusty_core.Preempt.Table.Lifecycle.{IsConsistent, restash-IsConsistent}
use rusty_core.Preempt.Stub.{
  Cpu, Machine, push, push_all, spill_order, stashed, tick, yanks, stash, end_of_interrupt, skipped,
  stub,
}
use rusty_core.Preempt.Stub.Spill.{fill-spill, push_all-rsp}

-- Once the fence, the index and the bitmap are read, the interrupted code is left alone: whether the
-- stub stashed or not, and whether an end of interrupt was sent or not, the fifteen registers, the
-- stack pointer and the stack are at the `iretq` what they were at the entry. The stack must have
-- room for the spill. One end of interrupt is written where its address is published, and none
-- where it is zero.
pub stub-transparent :
    (frames : ℕ) (m : Machine)
    → 120 ≤ m.cpu.rsp
    → m.cpu.rsp < u64_mod
    → ((stub frames m).cpu ≡ m.cpu)
      × (m.table.eoi_base ≡ 0 → (stub frames m).eois ≡ m.eois)
      × (m.table.eoi_base ≢ 0 → (stub frames m).eois ≡ m.table.eoi_base ∷ m.eois)
unfolding stub end_of_interrupt stash skipped tick
stub-transparent frames m room small = (
  elim (Bool-cases (yanks (tick m.table))) [
    | inl e ↦ rw (e, stub) (fill-spill m.cpu _ room small)
    | inr e ↦ rw (e, stub) (fill-spill m.cpu _ room small)
  ],
  λ z. elim (Bool-cases (yanks (tick m.table))) [
    | inl e ↦ rw (e, stub) (ground arith)
    | inr e ↦ rw (e, stub) (ground arith)
  ],
  λ nz. elim (Bool-cases (yanks (tick m.table))) [
    | inl e ↦ rw (e, stub) (ground arith)
    | inr e ↦ rw (e, stub) (ground arith)
  ],
)

-- The state that an interrupt arrived on: the registers, and the three words that the processor has
-- pushed.
abbrev pub interrupted : Cpu → FullFrame
interrupted c = record {
  r15 = c.gprs.r15;
  r14 = c.gprs.r14;
  r13 = c.gprs.r13;
  r12 = c.gprs.r12;
  r11 = c.gprs.r11;
  r10 = c.gprs.r10;
  r9 = c.gprs.r9;
  r8 = c.gprs.r8;
  rdi = c.gprs.rdi;
  rsi = c.gprs.rsi;
  rbp = c.gprs.rbp;
  rbx = c.gprs.rbx;
  rdx = c.gprs.rdx;
  rcx = c.gprs.rcx;
  rax = c.gprs.rax;
  rsp = (c.rsp + 24) % u64_mod;
  rip = get_or c.stack 0 0;
  cs = get_or c.stack 1 0;
  rflags = get_or c.stack 2 0;
  magic = preempt_magic;
}

stashed-interrupted :
    (c : Cpu) → 120 ≤ c.rsp → c.rsp < u64_mod → stashed (push_all spill_order c) ≡ interrupted c
unfolding stashed push_all push
stashed-interrupted c room small =
    ap (λ (sp : ℕ). record (interrupted c) { rsp = sp })
      (omega (arith, push_all-rsp spill_order c room small))

-- The slot that an interrupt stashes into.
abbrev pub Yanked : Table → Type 0
Yanked t =
    (t.preemptible ≢ 0) × (t.current_idx < max_tasks) × (occupied t.slot_used t.current_idx ≡ true)

yanks_iff : (t : Table) → t.slot_used < 256 → (yanks (tick t) ≡ true) ↔ Yanked t
unfolding yanks tick
yanks_iff t byte = (
  λ h. ground (arith, bit_test-occupied t.slot_used t.current_idx byte),
  λ h. ground (arith, bit_test-occupied t.slot_used t.current_idx byte),
)

yanks_not : (t : Table) → t.slot_used < 256 → ¬ (Yanked t) → yanks (tick t) ≡ false
yanks_not t byte n = elim (Bool-cases (yanks (tick t))) [
  | inl e ↦ absurd (n ((yanks_iff t byte).0 e))
  | inr e ↦ e
]

-- With the fence up and the current slot occupied, the stub writes the interrupted state into the
-- frame of that slot alone and counts one yank; otherwise it touches neither. It counts one tick
-- in both cases, and changes nothing else of the table.
pub stub-table :
    (frames : ℕ) (m : Machine)
    → 120 ≤ m.cpu.rsp
    → m.cpu.rsp < u64_mod
    → m.table.slot_used < 256
    → (Yanked m.table
        → (stub frames m).table ≡ record (tick m.table) {
          task_frames = update m.table.task_frames m.table.current_idx (interrupted m.cpu);
          preempt_switches = (m.table.preempt_switches + 1) % u64_mod;
        })
      × (¬ (Yanked m.table) → (stub frames m).table ≡ tick m.table)
unfolding stub end_of_interrupt stash skipped tick
stub-table frames m room small byte = (
  λ y.
      rw ((yanks_iff m.table byte).1 y, stub)
        (ap
          (λ f. record (tick m.table) {
            task_frames = update m.table.task_frames m.table.current_idx f;
            preempt_switches = (m.table.preempt_switches + 1) % u64_mod;
          })
          (stashed-interrupted m.cpu room small)),
  λ n. rw (yanks_not m.table byte n, stub),
)

-- A yank keeps the table consistent, when the word above the processor's three lies in the
-- window of the current slot and its address is canonical.
pub stub-IsConsistent :
    (frames : ℕ) (m : Machine)
    → 120 ≤ m.cpu.rsp
    → m.cpu.rsp + 24 < u64_mod
    → IsConsistent m.table
    → Yanked m.table
    → (m.table.bounds m.table.current_idx).0 ≤ m.cpu.rsp + 24
    → m.cpu.rsp + 24 ≤ (m.table.bounds m.table.current_idx).1
    → IsCanonical (m.cpu.rsp + 24)
    → IsConsistent (stub frames m).table
unfolding tick
stub-IsConsistent frames m room small c y low high can =
    let at_entry = (stub-table frames m room (omega arith) c.byte).0 y in
    restash-IsConsistent m.table (stub frames m).table (interrupted m.cpu) c y.2
      ((valid_for_iff (interrupted m.cpu) _ _ (omega arith)).1
        (refl, omega arith, omega arith, subst IsCanonical (omega arith) can))
      (ap (λ (t : Table). t.task_frames) at_entry) (ap (λ (t : Table). t.bounds) at_entry)
      (ap (λ (t : Table). t.slot_used) at_entry)
