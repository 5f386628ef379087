-- ===== src/Task/Run/Jobs.antt =====
-- The jobs that a scheduler has in its queue, what a job stands for in the kernel, and what keeps it so.
use rusty_core.Prelude.{
  ℕ, zero, suc, true, ◌+◌, ◌-◌, List, [], ◌∷◌, ◌<◌, ◌≡◌, ◌≢◌, refl, sym, ap, false, ◌∙◌, subst,
  Bool, ltb, Outcome, done, u64_mod, some_inj,
}
use rusty_core.Memory.Mapping.{virt_addr}
use rusty_core.Preempt.Frame.{valid_for}
use rusty_core.Preempt.Bitmap.{occupied}
use rusty_core.Preempt.Table.{Table, max_tasks}
use rusty_core.Preempt.Table.Lifecycle.{IsConsistent}
use rusty_core.Task.Stack.{canary_ok}
use rusty_core.Task.Spawn.{TaskState, Task}
use rusty_core.Task.Run.{Kernel, Sched, parked}
use rusty_core.Task.Run.Turn.{IsSeated}
use rusty_core.Task.Ledger.{Line}
use rusty_core.Prelude.Vecs.{push, All}
use rusty_core.Task.Run.Settle.{IsReleased}

pub record Job : Type 0 where
  pub box : ℕ
  pub step : ℕ
  pub id : ℕ
  pub name : List ℕ
  pub ran : ℕ
  pub due : ℕ

-- The job after one more step.
abbrev pub stepped : Job → Job
stepped j = record j { ran = j.ran + 1; due = j.due - 1 }

-- The line that a job will have in the end: it has had all its steps.
abbrev pub share : Job → Line
share j = (j.id, j.name, j.ran + j.due)

-- Two jobs in two boxes, with two closures.
abbrev pub IsApart : Job → Job → Type 0
IsApart i j = (i.box ≢ j.box) × (i.step ≢ j.step)

abbrev pub AreApart : List Job → Type 0
AreApart [] = Unit
AreApart (j ∷ js) = All (IsApart j) js × AreApart js

pub All-push : (P : Job → Type 0) (js : List Job) (j : Job) → All P js → P j → All P (push js j)
unfolding push
All-push P [] j h p = (p, tt)
All-push P (i ∷ js) j h p = (h.0, All-push P js j h.1 p)

-- A job that has left the front goes to the back.
pub AreApart-push :
    (js : List Job) (j : Job) → All (IsApart j) js → AreApart js → AreApart (push js j)
unfolding push
AreApart-push [] j h a = (tt, tt)
AreApart-push (i ∷ js) j h a = (
  All-push (IsApart i) js j a.0 (λ e. h.0.0 (sym e), λ e. h.0.1 (sym e)),
  AreApart-push js j h.1 a.1,
)

-- `n` calls in a row of a scheduler's `schedule_once`, each of which ran a task.
unfoldable pub Turns :
    {σ : Type 0}
    → (Sched → Kernel σ → Outcome (Bool × Sched × Kernel σ))
    → ℕ
    → Sched
    → Kernel σ
    → Sched
    → Kernel σ
    → Type 0
Turns once zero s k s' k' = (s ≡ s') × (k ≡ k')
Turns {σ} once (suc n) s k s' k' =
    (s1 : Sched) × (k1 : Kernel σ) × (once s k ≡ done (true, s1, k1)) × Turns once n s1 k1 s' k'

-- `left c` reads off the captured state how many steps closure `c` will still take.
module _ {σ : Type 0} (run_step : ℕ → Kernel σ → Outcome (Bool × Kernel σ)) (left : ℕ → σ → ℕ) where
  -- What a step may do to the kernel, whatever interrupts arrive meanwhile.
  pub record IsKept (c : ℕ) (k k2 : Kernel σ) : Type 0 where
    pub boxes : k2.boxes ≡ k.boxes
    pub pointers : k2.task_ptrs ≡ k.task_ptrs
    pub occupancy : k2.table.slot_used ≡ k.table.slot_used
    pub consistent : IsConsistent k2.table
    pub canaries : (a : ℕ) → canary_ok (k.boxes a).stack k2.mem ≡ canary_ok (k.boxes a).stack k.mem
    pub fewer : left c k2.captured + 1 ≡ left c k.captured
    pub others : (d : ℕ) → d ≢ c → left d k2.captured ≡ left d k.captured

  -- The closures return, as often as they are due, and say truly whether they stay alive.
  abbrev pub IsTame : Type 0
  IsTame =
      (c : ℕ) (k : Kernel σ)
      → IsConsistent k.table
      → 0 < left c k.captured
      → (k2 : Kernel σ) × (run_step c k ≡ done (ltb 1 (left c k.captured), k2)) × IsKept c k k2

  -- The task of a job waits in its box, on its slot, with the steps that the job says.
  pub record IsWaiting (j : Job) (k : Kernel σ) : Type 0 where
    pub seated : IsSeated run_step j.box k
    pub ready : (k.boxes j.box).state ≡ TaskState.ready
    pub id : (k.boxes j.box).id ≡ j.id
    pub name : (k.boxes j.box).name ≡ j.name
    pub ran : (k.boxes j.box).runs ≡ j.ran
    pub step : (k.boxes j.box).step ≡ j.step
    pub due : left j.step k.captured ≡ j.due
    pub some_due : 0 < j.due
    pub room : j.ran + j.due < u64_mod

  -- What another task's turn leaves of a waiting one.
  pub record IsSpared (j : Job) (k k' : Kernel σ) : Type 0 where
    pub box : k'.boxes j.box ≡ k.boxes j.box
    pub pointer : k'.task_ptrs (k.boxes j.box).slot ≡ k.task_ptrs (k.boxes j.box).slot
    pub occupancy :
        occupied k'.table.slot_used (k.boxes j.box).slot
        ≡ occupied k.table.slot_used (k.boxes j.box).slot
    pub canary : canary_ok (k.boxes j.box).stack k'.mem ≡ canary_ok (k.boxes j.box).stack k.mem
    pub due : left j.step k'.captured ≡ left j.step k.captured
    pub consistent : IsConsistent k'.table

  pub spared-IsWaiting :
      (j : Job) (k k' : Kernel σ) → IsSpared j k k' → IsWaiting j k → IsWaiting j k'
  spared-IsWaiting j k k' same w = record {
    seated = record {
      slot_lt = subst (λ (t : Task). t.slot < max_tasks) (sym same.box) w.seated.slot_lt;
      pointed = ap (λ (t : Task). k'.task_ptrs t.slot) same.box ∙ same.pointer ∙ w.seated.pointed;
      registered =
          ap (λ (t : Task). occupied k'.table.slot_used t.slot) same.box
          ∙ same.occupancy
          ∙ w.seated.registered;
      consistent = same.consistent;
      canary = ap (λ (t : Task). canary_ok t.stack k'.mem) same.box ∙ same.canary ∙ w.seated.canary;
      canonical =
          subst (λ (t : Task). virt_addr t.stack.top ≡ done t.stack.top) (sym (same.box))
            w.seated.canonical;
      template =
          ap (λ (t : Task). valid_for t.preempt t.stack.bottom t.stack.top) same.box
          ∙ w.seated.template;
    };
    ready = ap (λ (t : Task). t.state) same.box ∙ w.ready;
    id = ap (λ (t : Task). t.id) same.box ∙ w.id;
    name = ap (λ (t : Task). t.name) same.box ∙ w.name;
    ran = ap (λ (t : Task). t.runs) same.box ∙ w.ran;
    step = ap (λ (t : Task). t.step) same.box ∙ w.step;
    due = same.due ∙ w.due;
    some_due = w.some_due;
    room = w.room;
  }

  -- Two tasks that wait in different boxes have different slots.
  pub slots_apart :
      (i j : Job) (k : Kernel σ)
      → i.box ≢ j.box
      → IsWaiting i k
      → IsWaiting j k
      → (k.boxes i.box).slot ≢ (k.boxes j.box).slot
  slots_apart i j k other wi wj same =
      other
        (some_inj (sym wi.seated.pointed ∙ ap (λ (s : ℕ). k.task_ptrs s) same ∙ wj.seated.pointed))

  pub IsSpared-trans :
      (j : Job) (k k1 k2 : Kernel σ) → IsSpared j k k1 → IsSpared j k1 k2 → IsSpared j k k2
  IsSpared-trans j k k1 k2 first then_ = record {
    box = then_.box ∙ first.box;
    pointer =
        subst (λ (t : Task). k2.task_ptrs t.slot ≡ k1.task_ptrs t.slot) first.box then_.pointer
        ∙ first.pointer;
    occupancy =
        subst
          (λ (t : Task). occupied k2.table.slot_used t.slot ≡ occupied k1.table.slot_used t.slot)
          first.box then_.occupancy
        ∙ first.occupancy;
    canary =
        subst (λ (t : Task). canary_ok t.stack k2.mem ≡ canary_ok t.stack k1.mem) first.box
          then_.canary
        ∙ first.canary;
    due = then_.due ∙ first.due;
    consistent = then_.consistent;
  }

  pub switched-IsConsistent :
      (t : Table) (idx fence : ℕ)
      → IsConsistent t
      → IsConsistent (record t { current_idx = idx; preemptible = fence })
  switched-IsConsistent t idx fence c = record {
    byte = c.byte;
    live = λ i h o. let l = c.live i h o in record { valid = l.valid; window = l.window };
    retired = c.retired;
  }

  -- What the release of a finished task leaves of another.
  pub released-IsSpared :
      (i j : Job) (k k' : Kernel σ)
      → (k.boxes i.box).slot < max_tasks
      → (k.boxes i.box).slot ≢ (k.boxes j.box).slot
      → IsReleased j.box k k'
      → IsSpared i k k'
  released-IsSpared i j k k' slot_lt different released = record {
    box = ap (λ (boxes : ℕ → Task). boxes i.box) released.tasks;
    pointer = released.pointers (k.boxes i.box).slot different;
    occupancy = released.occupancy (k.boxes i.box).slot slot_lt different;
    canary = ap (λ (mem : ℕ → ℕ). canary_ok (k.boxes i.box).stack mem) released.memory;
    due = ap (λ (c : σ). left i.step c) released.captured;
    consistent = released.consistent;
  }

  -- All jobs that wait keep waiting.
  pub all_spared :
      (j : Job) (k k' : Kernel σ) (js : List Job)
      → ((i : Job) → i.box ≢ j.box → i.step ≢ j.step → IsWaiting i k → IsSpared i k k')
      → All (IsApart j) js
      → All (λ i. IsWaiting i k) js
      → All (λ i. IsWaiting i k') js
  all_spared j k k' [] spares apart waiting = tt
  all_spared j k k' (i ∷ js) spares apart waiting = (
    spared-IsWaiting i k k' (spares i (λ e. apart.0.0 (sym e)) (λ e. apart.0.1 (sym e)) waiting.0)
        waiting.0,
    all_spared j k k' js spares apart.1 waiting.1,
  )

  pub awake : (j : Job) (k : Kernel σ) → IsWaiting j k → parked j.box k ≡ false
  unfolding parked
  awake j k w = rw (w.ready, parked) refl

  -- The line of a waiting task after one more run.
  pub next_line :
      (j : Job) (k : Kernel σ)
      → IsWaiting j k
      → ◌≡◌ {A = Line}
          ((k.boxes j.box).id, (k.boxes j.box).name, (k.boxes j.box).runs + 1)
          (j.id, j.name, j.ran + 1)
  next_line j k w =
      ap (λ (n : ℕ). (n, (k.boxes j.box).name, (k.boxes j.box).runs + 1)) w.id
      ∙ ap (λ (n : List ℕ). (j.id, n, (k.boxes j.box).runs + 1)) w.name
      ∙ ap (λ (n : ℕ). (j.id, j.name, n + 1)) w.ran
