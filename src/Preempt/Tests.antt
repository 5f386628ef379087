-- ===== src/Preempt/Tests.antt =====
-- Runs of the slot table and of the stub, and the instances of their theorems there.
use rusty_core.Prelude.{
  ℕ, ◌+◌, ◌%◌, ◌<◌, ◌≤◌, ◌≡◌, ◌≢◌, ◌↔◌, inl, refl, sym, subst, ◌∙◌, true, false, not, ◌&&◌, ◌||◌,
  [], ◌∷◌, arith, u64_mod, ◌==◌, done, update,
}
use rusty_core.Preempt.Frame.{
  FullFrame, zero_frame, valid_for, preempt_magic, IsCanonical, valid_for_iff,
}
use rusty_core.Preempt.Bitmap.{occupied, occupy}
use rusty_core.Preempt.Table.{
  Table, max_tasks, boot_table, register_task, set_slot_bounds, slot_bounds, frame_ok,
  unregister_task,
}
use rusty_core.Preempt.Table.Lifecycle.{
  IsConsistent, boot_table-IsConsistent, admit, frame_ok-occupied, admit-IsConsistent,
  unregister_task-IsConsistent,
}
use rusty_core.Preempt.Stub.{Gprs, Machine, stub, tick}
use rusty_core.Preempt.Stub.Resume.{
  Yanked, interrupted, stub-transparent, stub-table, stub-IsConsistent,
}

-- A frame on the window from 0x10000 to 0x30000.
abbrev fresh_frame : FullFrame
fresh_frame = record zero_frame {
  rsp = 0x2fff8;
  rip = 0x2000;
  cs = 8;
  rflags = 0x202;
  magic = preempt_magic;
}

fresh_frame-valid : valid_for fresh_frame 0x10000 0x30000 ≡ true
unfolding valid_for
fresh_frame-valid = refl

abbrev seated_table : Table
seated_table = record boot_table {
  task_frames = update boot_table.task_frames 0 fresh_frame;
  slot_used = 1;
  bounds = update boot_table.bounds 0 (0x10000, 0x30000);
}

admitted : admit 0 fresh_frame 0x10000 0x30000 boot_table ≡ done seated_table
unfolding admit register_task set_slot_bounds occupied occupy
admitted = refl

slot_zero_free : occupied 0 0 ≡ false
unfolding occupied
slot_zero_free = refl

slot_zero_used : occupied 1 0 ≡ true
unfolding occupied
slot_zero_used = refl

same_table : {t u : Table} → done t ≡ done u → t ≡ u
same_table e = cc

seated_table-IsConsistent : IsConsistent seated_table
seated_table-IsConsistent =
    let (t, e, c, bits) =
      admit-IsConsistent boot_table 0 0x10000 0x30000 fresh_frame boot_table-IsConsistent
        (omega arith) slot_zero_free (omega arith) (omega arith) fresh_frame-valid in
    subst IsConsistent (same_table (sym e ∙ admitted)) c

valid_for_iff_example : (valid_for fresh_frame 0x10000 0x30000 ≡ true) ↔ (
    (preempt_magic ≡ preempt_magic)
    × (0x10000 ≤ 0x2fff8)
    × (0x2fff8 ≤ 0x30000)
    × IsCanonical 0x2fff8)
valid_for_iff_example = valid_for_iff fresh_frame 0x10000 0x30000 (omega arith)

frame_ok-occupied_example : frame_ok 0 seated_table ≡ done (occupied 1 0)
frame_ok-occupied_example = frame_ok-occupied seated_table 0 (omega arith) seated_table-IsConsistent

admit-IsConsistent_example :
    (t : Table) × (admit 0 fresh_frame 0x10000 0x30000 boot_table ≡ done t)
    × IsConsistent t
    × ((j : ℕ) → j < max_tasks → occupied t.slot_used j ≡ ((0 == j) || occupied 0 j))
admit-IsConsistent_example =
    admit-IsConsistent boot_table 0 0x10000 0x30000 fresh_frame boot_table-IsConsistent
      (omega arith) slot_zero_free (omega arith) (omega arith) fresh_frame-valid

unregister_task-IsConsistent_example :
    (t : Table) × (unregister_task 0 seated_table ≡ done t)
    × IsConsistent t
    × (t.task_frames 0 ≡ zero_frame)
    × (slot_bounds 0 t ≡ slot_bounds 0 seated_table)
    × ((j : ℕ) → j < max_tasks → occupied t.slot_used j ≡ (not (0 == j) && occupied 1 j))
unregister_task-IsConsistent_example =
    unregister_task-IsConsistent seated_table 0 seated_table-IsConsistent (omega arith)
      slot_zero_used

-- A task on slot 0 with the fence up, interrupted at 0x2000.
abbrev running_table : Table
running_table = record seated_table { current_idx = 0; preemptible = 1; eoi_base = 0xFEE0_00B0 }

running_table-IsConsistent : IsConsistent running_table
running_table-IsConsistent = record {
  byte = seated_table-IsConsistent.byte;
  live = λ i h o.
      let l = seated_table-IsConsistent.live i h o in record { valid = l.valid; window = l.window };
  retired = seated_table-IsConsistent.retired;
}

abbrev gprs_at_entry : Gprs
gprs_at_entry = record {
  r15 = 15;
  r14 = 14;
  r13 = 13;
  r12 = 12;
  r11 = 11;
  r10 = 10;
  r9 = 9;
  r8 = 8;
  rdi = 7;
  rsi = 6;
  rbp = 5;
  rbx = 4;
  rdx = 3;
  rcx = 2;
  rax = 1;
}

abbrev interrupted_machine : Machine
interrupted_machine = record {
  cpu = record {
    gprs = gprs_at_entry;
    rsp = 0x2f000;
    stack = 0x2000 ∷ 8 ∷ 0x202 ∷ 0x2f018 ∷ 16 ∷ [];
  };
  table = running_table;
  eois = [];
}

running-Yanked : Yanked running_table
running-Yanked = (λ e. omega arith, omega arith, slot_zero_used)

stub-transparent_example :
    ((stub 0x5000 interrupted_machine).cpu ≡ interrupted_machine.cpu)
    × (running_table.eoi_base ≡ 0 → (stub 0x5000 interrupted_machine).eois ≡ [])
    × (running_table.eoi_base ≢ 0 → (stub 0x5000 interrupted_machine).eois ≡ 0xFEE0_00B0 ∷ [])
stub-transparent_example = stub-transparent 0x5000 interrupted_machine (omega arith) (omega arith)

stub-table_example :
    (Yanked running_table
      → (stub 0x5000 interrupted_machine).table ≡ record (tick running_table) {
        task_frames = update running_table.task_frames 0 (interrupted interrupted_machine.cpu);
        preempt_switches = (0 + 1) % u64_mod;
      })
    × (¬ (Yanked running_table) → (stub 0x5000 interrupted_machine).table ≡ tick running_table)
stub-table_example = stub-table 0x5000 interrupted_machine (omega arith) (omega arith) (omega arith)

stub-IsConsistent_example : IsConsistent (stub 0x5000 interrupted_machine).table
stub-IsConsistent_example =
    stub-IsConsistent 0x5000 interrupted_machine (omega arith) (omega arith)
      running_table-IsConsistent running-Yanked (omega arith) (omega arith) (inl (omega arith))
