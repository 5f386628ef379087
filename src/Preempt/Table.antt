-- ===== src/Preempt/Table.antt =====
-- The statics of kernel/src/preempt.rs and the functions that keep them. Arrays are functions of the
-- slot; an atomic is a number, read and written whole on the single CPU.
pub mod Slots
pub mod Lifecycle
use rusty_core.Prelude.{
  ℕ, zero, suc, ◌+◌, ◌-◌, ◌<◌, ◌≡◌, Bool, true, false, Option, none, some, if◌then◌else◌, ltb, leb,
  ◌==◌, not, update, Outcome, done, panics, ◌>>=◌, ◌>>◌, assert,
}
use rusty_core.Preempt.Frame.{FullFrame, zero_frame, valid_for}
use rusty_core.Preempt.Bitmap.{occupied, occupy, vacate}

abbrev pub max_tasks : ℕ
max_tasks = 7

pub record Table : Type 0 where
  pub task_frames : ℕ → FullFrame
  pub bounds : ℕ → ℕ × ℕ
  pub slot_used : ℕ
  pub current_idx : ℕ
  pub preemptible : ℕ
  pub preempt_switches : ℕ
  pub apic_ticks : ℕ
  pub eoi_base : ℕ

-- The statics at boot.
abbrev pub boot_table : Table
boot_table = record {
  task_frames = λ _. zero_frame;
  bounds = λ _. (0, 0);
  slot_used = 0;
  current_idx = max_tasks;
  preemptible = 0;
  preempt_switches = 0;
  apic_ticks = 0;
  eoi_base = 0;
}

unfoldable pub set_preemptible : Bool → Table → Table
set_preemptible on t = record t { preemptible = if on then 1 else 0 }

unfoldable pub set_current : ℕ → Table → Table
set_current idx t = record t { current_idx = idx }

abbrev pub current_idx : Table → ℕ
current_idx t = t.current_idx

unfoldable pub set_eoi_base : ℕ → Table → Table
set_eoi_base addr t = record t { eoi_base = addr }

unfoldable pub register_task : ℕ → FullFrame → Table → Outcome Table
register_task idx frame t = do
  assert (ltb idx max_tasks)
  assert (not (occupied t.slot_used idx))
  done (record t {
    task_frames = update t.task_frames idx frame;
    slot_used = occupy t.slot_used idx;
  })

unfoldable pub set_slot_bounds : ℕ → ℕ → ℕ → Table → Outcome Table
set_slot_bounds idx bottom top t = do
  assert (ltb idx max_tasks)
  assert (ltb bottom top)
  done (record t { bounds = update t.bounds idx (bottom, top) })

unfoldable pub slot_bounds : ℕ → Table → Option (ℕ × ℕ)
slot_bounds idx t =
    if leb max_tasks idx then none else if (t.bounds idx).0 == 0 then none else some (t.bounds idx)

unfoldable pub snapshot : ℕ → Table → Outcome FullFrame
snapshot idx t = do assert (ltb idx max_tasks); done (t.task_frames idx)

unfoldable pub frame_ok : ℕ → Table → Outcome Bool
unfolding snapshot
frame_ok idx t = elim (slot_bounds idx t) [
  | some (bottom, top) ↦ snapshot idx t >>= λ f. done (valid_for f bottom top)
  | none ↦ done false
]

unfoldable pub unregister_task : ℕ → Table → Outcome Table
unregister_task idx t = do
  assert (ltb idx max_tasks)
  assert (occupied t.slot_used idx)
  done (record t {
    task_frames = update t.task_frames idx zero_frame;
    slot_used = vacate t.slot_used idx;
  })

-- `alloc_slot` of kernel/src/task.rs: `for idx in 0..MAX_TASKS`, with `left` rounds to go.
unfoldable pub first_free : ℕ → ℕ → ℕ → Outcome ℕ
first_free zero idx used = panics
first_free (suc left) idx used =
    let rest = first_free left (idx + 1) used in if occupied used idx then rest else done idx

unfoldable pub alloc_slot : Table → Outcome ℕ
unfolding first_free
alloc_slot t = first_free max_tasks 0 t.slot_used
