-- ===== src/Task/Spawn/Admission.antt =====
-- Construction succeeds whenever a slot is free, and leaves a consistent table.
use rusty_core.Prelude.{
  ℕ, ◌+◌, ◌^◌, ◌<◌, ◌≤◌, ◌≡◌, ◌⊎◌, ◌-◌, u64_mod, inl, inr, refl, true, false, List, arith, ◌==◌,
  Outcome, done, panics, running, ◌>>=◌, ◌||◌,
}
use native.Mathlib.Decide.{dec_lt}
use rusty_core.Preempt.Frame.{FullFrame, fresh, valid_for, fresh-valid_for}
use rusty_core.Preempt.Bitmap.{occupied}
use rusty_core.Preempt.Table.{Table, max_tasks, alloc_slot, register_task}
use rusty_core.Preempt.Table.Slots.{alloc_slot-lowest}
use rusty_core.Preempt.Table.Lifecycle.{IsConsistent, admit, admit-IsConsistent}
use rusty_core.Task.Switch.{Context, init_task_context}
use rusty_core.Task.Switch.RoundTrip.{init_task_context-enters}
use rusty_core.Task.Stack.{TaskStack, new-fits, stack_alloc_bytes, stack_size_bytes}
use rusty_core.Task.Stack
use rusty_core.Task.Spawn.{TaskState, Task, Site, build}

-- The calls of the constructor, each with the result that it returns.
module _ (state : TaskState) (id : ℕ) (name : List ℕ) (step : ℕ) (site : Site) (mem : ℕ → ℕ)
    (t : Table) where
  abbrev built : TaskStack → Context → FullFrame → ℕ → Task
  built stack ctx f idx = record {
    id = id;
    name = name;
    state = state;
    runs = 0;
    vruntime = 0;
    weight = 1024;
    stack = stack;
    ctx = ctx;
    preempt = f;
    slot = idx;
    step = step;
  }

  build-runs :
      (stack : TaskStack) (planted framed : ℕ → ℕ) (ctx : Context) (f : FullFrame) (idx : ℕ)
      (t' : Table)
      → Stack.new site.raw mem ≡ done (stack, planted)
      → init_task_context site.trampoline stack.top planted ≡ done (ctx, framed)
      → fresh site.trampoline site.cs stack.top ≡ done f
      → valid_for f stack.bottom stack.top ≡ true
      → alloc_slot t ≡ done idx
      → admit idx f stack.bottom stack.top t ≡ done t'
      → build state id name step site mem t ≡ done (built stack ctx f idx, framed, t')
  unfolding build admit
  build-runs stack planted framed ctx f idx t' made entered fresh_made valid got admitted =
      rw (made, entered, fresh_made, valid, got) (flat (register_task idx f t) _ _ _ admitted)
    where
      flat :
          (m : Outcome Table) (k : Table → Outcome Table) (r : Table)
          (wrap : Table → Task × (ℕ → ℕ) × Table)
          → m >>= k ≡ done r
          → m >>= (λ u. k u >>= λ v. done (wrap v)) ≡ done (wrap r)
      flat (done u) k r wrap e = rw e
      flat panics k r wrap e = cc
      flat running k r wrap e = cc

lowest-le :
    (used idx free : ℕ)
    → ((j : ℕ) → j < idx → occupied used j ≡ true)
    → occupied used free ≡ false
    → idx ≤ free
lowest-le used idx free lowest vacant = elim (dec_lt free idx) [
  | yes lt ↦ absurd (cc (lowest free lt))
  | no ge ↦ omega arith
]

-- A backing store within one canonical half.
abbrev pub IsStore : ℕ → Type 0
IsStore raw =
    (raw + stack_alloc_bytes < 2 ^ 47)
    ⊎ ((2 ^ 64 - 2 ^ 47 ≤ raw) × (raw + stack_alloc_bytes < u64_mod))

-- While a slot is free, a task is built without a panic, for every state asked for: it takes the
-- lowest free slot and no other, its frame is valid on its own stack window, which becomes the window
-- of the slot, and the table stays consistent. The backing store must lie in one of the canonical halves, as
-- the heap of the kernel does, and not at address zero.
pub build-admits :
    (state : TaskState) (id : ℕ) (name : List ℕ) (step : ℕ) (site : Site) (mem : ℕ → ℕ) (t : Table)
    → 0 < site.raw
    → IsStore site.raw
    → IsConsistent t
    → (free : ℕ) → free < max_tasks
    → occupied t.slot_used free ≡ false
    → (task : Task) × (mem' : ℕ → ℕ) × (t' : Table) × (build state id name step site mem t
        ≡ done (task, mem', t'))
      × IsConsistent t'
      × (task.state ≡ state)
      × (task.slot ≤ free)
      × (valid_for task.preempt task.stack.bottom task.stack.top ≡ true)
      × (occupied t.slot_used task.slot ≡ false)
      × ((j : ℕ)
          → j < max_tasks
          → occupied t'.slot_used j ≡ ((task.slot == j) || occupied t.slot_used j))
build-admits state id name step site mem t pos store c free below vacant =
    let low : site.raw + stack_alloc_bytes < u64_mod = ground (arith, store) in
    let (stack, planted, made, al_bottom, al_top, above, size, inside, canary, same) =
      new-fits site.raw mem (omega arith) in
    let (ctx, framed, entered, parity, enters) =
      init_task_context-enters site.trampoline stack.top planted al_top (omega arith)
        (omega arith) in
    let (f, fresh_made, valid, fparity, frip) =
      fresh-valid_for site.trampoline site.cs stack.bottom stack.top al_top (omega arith)
        (omega arith) (ground (arith, store)) in
    elim (alloc_slot-lowest t) [
      | inl (idx, got, small, vacant', lowest) ↦
          let (t', admitted, c', bits) =
            admit-IsConsistent t idx stack.bottom stack.top f c small vacant' (omega arith)
              (omega arith) valid in
          (
            built state id name step site mem t stack ctx f idx,
            framed,
            t',
            build-runs state id name step site mem t stack planted framed ctx f idx t' made entered
                fresh_made valid got admitted,
            c',
            refl,
            lowest-le t.slot_used idx free lowest vacant,
            valid,
            vacant',
            bits,
          )
      | inr (full, all) ↦ absurd (cc (all free below))
    ]
