-- ===== src/Task/Workers.antt =====
-- Two workers whose closures count down what they still have to do.
use rusty_core.Prelude.{
  ℕ, ◌-◌, ◌≡◌, refl, sym, ◌∙◌, subst, Bool, true, false, some, [], arith, ◌==◌, eq-false, Outcome,
  done, update, if◌then◌else◌, ltb,
}
use rusty_core.Memory.Mapping.{virt_addr}
use rusty_core.Preempt.Frame.{FullFrame, valid_for}
use rusty_core.Preempt.Bitmap.{occupied, occupy}
use rusty_core.Preempt.Table.{Table, register_task, set_slot_bounds}
use rusty_core.Preempt.Table.Lifecycle.{IsConsistent, admit, admit-IsConsistent}
use rusty_core.Task.Stack.{stack_canary, canary_ok}
use rusty_core.Task.Spawn.{Task}
use rusty_core.Task.Run.{Kernel}
use rusty_core.Task.SchedTests.{
  fresh_frame, fresh_frame-valid, seated_table, seated_table-IsConsistent, same_table, worker,
}
use rusty_core.Task.Run.Jobs.{Job}
use rusty_core.Task.Run.Jobs.{IsTame, IsWaiting}

abbrev pub second_frame : FullFrame
second_frame = record fresh_frame { rsp = 0x5fff8 }

second_frame-valid : valid_for second_frame 0x40000 0x60000 ≡ true
unfolding valid_for
second_frame-valid = refl

abbrev pub full_table : Table
full_table = record seated_table {
  task_frames = update seated_table.task_frames 1 second_frame;
  slot_used = 3;
  bounds = update seated_table.bounds 1 (0x40000, 0x60000);
}

second_admitted : admit 1 second_frame 0x40000 0x60000 seated_table ≡ done full_table
unfolding admit register_task set_slot_bounds occupied occupy
second_admitted = refl

one_free : occupied 1 1 ≡ false
unfolding occupied
one_free = refl

pub full_table-IsConsistent : IsConsistent full_table
full_table-IsConsistent =
    let (t, e, c, bits) =
      admit-IsConsistent seated_table 1 0x40000 0x60000 second_frame seated_table-IsConsistent
        (omega arith) one_free (omega arith) (omega arith) second_frame-valid in
    subst IsConsistent (same_table (sym e ∙ second_admitted)) c

abbrev pub second : Task
second = record worker {
  id = 2;
  runs = 0;
  vruntime = 0;
  weight = 512;
  stack = record { top = 0x60000; bottom = 0x40000 };
  preempt = second_frame;
  slot = 1;
  step = 1;
}

-- Closure `c` still has `captured c` steps to take.
abbrev pub counting : Kernel (ℕ → ℕ)
counting = record {
  table = full_table;
  task_ptrs = λ idx. if idx == 0 then some 200 else some 100;
  boxes = λ a. if a == 100 then second else worker;
  mem = λ _. stack_canary;
  rsp0 = 0;
  captured = λ c. if c == 0 then 2 else 1;
}

abbrev pub count_down : ℕ → Kernel (ℕ → ℕ) → Outcome (Bool × Kernel (ℕ → ℕ))
count_down c k =
    done (ltb 1 (k.captured c), record k { captured = update k.captured c (k.captured c - 1) })

abbrev pub remaining : ℕ → (ℕ → ℕ) → ℕ
remaining c counts = counts c

pub count_down-IsTame : IsTame count_down remaining
count_down-IsTame c k consistent due = (
  record k { captured = update k.captured c (k.captured c - 1) },
  refl,
  record {
    boxes = refl;
    pointers = refl;
    occupancy = refl;
    consistent = consistent;
    canaries = λ a. refl;
    fewer = ground arith;
    others = λ d other. rw (eq-false c d (λ e. other (sym e))) refl;
  },
)

abbrev pub first_job : Job
first_job = record { box = 200; step = 0; id = 1; name = []; ran = 4; due = 2 }

abbrev pub second_job : Job
second_job = record { box = 100; step = 1; id = 2; name = []; ran = 0; due = 1 }

zero_taken : occupied 3 0 ≡ true
unfolding occupied
zero_taken = refl

one_taken : occupied 3 1 ≡ true
unfolding occupied
one_taken = refl

pub first_job-IsWaiting : IsWaiting count_down remaining first_job counting
unfolding canary_ok virt_addr
first_job-IsWaiting = record {
  seated = record {
    slot_lt = omega arith;
    pointed = refl;
    registered = zero_taken;
    consistent = full_table-IsConsistent;
    canary = refl;
    canonical = refl;
    template = fresh_frame-valid;
  };
  ready = refl;
  id = refl;
  name = refl;
  ran = refl;
  step = refl;
  due = refl;
  some_due = omega arith;
  room = omega arith;
}

pub second_job-IsWaiting : IsWaiting count_down remaining second_job counting
unfolding canary_ok virt_addr
second_job-IsWaiting = record {
  seated = record {
    slot_lt = omega arith;
    pointed = refl;
    registered = one_taken;
    consistent = full_table-IsConsistent;
    canary = refl;
    canonical = refl;
    template = second_frame-valid;
  };
  ready = refl;
  id = refl;
  name = refl;
  ran = refl;
  step = refl;
  due = refl;
  some_due = omega arith;
  room = omega arith;
}
