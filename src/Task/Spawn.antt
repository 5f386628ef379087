-- ===== src/Task/Spawn.antt =====
-- `Task` of kernel/src/task.rs and its two constructors, with the slot that they take in the table.
pub mod Admission
use rusty_core.Prelude.{
  ℕ, zero, suc, ◌+◌, ◌-◌, ◌*◌, ◌/◌, ◌%◌, ◌^◌, ◌<◌, ◌≤◌, ◌≡◌, ◌≢◌, refl, Bool, true, false, List, [],
  ◌∷◌, arith, u64_mod, if◌then◌else◌, leb, ltb, ◌==◌, Outcome, done, panics, ◌>>=◌, ◌>>◌, assert,
  not,
}
use rusty_core.Preempt.Frame.{FullFrame, fresh, valid_for}
use rusty_core.Preempt.Table.{Table, alloc_slot, register_task, set_slot_bounds}
use rusty_core.Task.Switch.{Context, init_task_context}
use rusty_core.Task.Stack.{TaskStack}
use rusty_core.Task.Stack

pub data TaskState : Type 0 where
  ready : TaskState
  executing : TaskState
  sleeping : (until_tick : ℕ) → TaskState
  finished : TaskState

-- The name is its bytes; `step` numbers the closure.
pub record Task : Type 0 where
  pub id : ℕ
  pub name : List ℕ
  pub state : TaskState
  pub runs : ℕ
  pub vruntime : ℕ
  pub weight : ℕ
  pub stack : TaskStack
  pub ctx : Context
  pub preempt : FullFrame
  pub slot : ℕ
  pub step : ℕ

abbrev pub cfs_default_weight : ℕ
cfs_default_weight = 1024

-- What a constructor is given by the machine: the address of `task_trampoline`, the code segment,
-- and the address of the backing store.
pub record Site : Type 0 where
  pub trampoline : ℕ
  pub cs : ℕ
  pub raw : ℕ

-- The common body of `Task::new` and `Task::sleeping`, which differ in the state alone.
unfoldable pub build :
    TaskState → ℕ → List ℕ → ℕ → Site → (ℕ → ℕ) → Table → Outcome (Task × (ℕ → ℕ) × Table)
build state id name step site mem t = do
  (stack, planted) ← Stack.new site.raw mem
  (ctx, framed) ← init_task_context site.trampoline stack.top planted
  preempt ← fresh site.trampoline site.cs stack.top
  assert (valid_for preempt stack.bottom stack.top)
  slot ← alloc_slot t
  registered ← register_task slot preempt t
  bounded ← set_slot_bounds slot stack.bottom stack.top registered
  done (
    record {
      id = id;
      name = name;
      state = state;
      runs = 0;
      vruntime = 0;
      weight = cfs_default_weight;
      stack = stack;
      ctx = ctx;
      preempt = preempt;
      slot = slot;
      step = step;
    },
    framed,
    bounded,
  )

unfoldable pub new : ℕ → List ℕ → ℕ → Site → (ℕ → ℕ) → Table → Outcome (Task × (ℕ → ℕ) × Table)
unfolding build
new id name step site mem t = build TaskState.ready id name step site mem t

unfoldable pub new_sleeping :
    ℕ → List ℕ → ℕ → ℕ → Site → (ℕ → ℕ) → Table → Outcome (Task × (ℕ → ℕ) × Table)
unfolding build
new_sleeping id name until_tick step site mem t =
    build (TaskState.sleeping until_tick) id name step site mem t

unfoldable pub with_weight : ℕ → Task → Outcome Task
with_weight weight task = do assert (ltb 0 weight); done (record task { weight = weight })
