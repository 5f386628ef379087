-- ===== src/Task/Switch/Visit.antt =====
-- A visit of the driver to a task and back, at the level of the processor: `switch_to_task`, the shim
-- `task_trampoline`, and the switch at the end of a round in `task_trampoline_body`. `work` is what the
-- task does in between, on its own stack.
use rusty_core.Prelude.{
  ℕ, ◌+◌, ◌-◌, ◌%◌, ◌<◌, ◌≤◌, ◌≡◌, ◌⊎◌, refl, arith, u64_mod, ◌==◌, ==_iff, Outcome, done, ◌>>=◌,
  ◌>>◌, assert,
}
use rusty_core.Task.Switch.{
  Context, Core, save, ret, restore, context_switch, init_task_context, words_at,
}
use rusty_core.Task.Switch.RoundTrip.{
  no_registers, context_switch-resumes, init_task_context-enters,
}

-- `SCHED_CTX` and `TRAMPOLINE_ENTRY_RSP`.
pub record Statics : Type 0 where
  pub sched_ctx : Context
  pub trampoline_entry_rsp : ℕ

-- `SCHED_CTX` at the start.
abbrev pub first_statics : Statics
first_statics = record { sched_ctx = record { rsp = 0 }; trampoline_entry_rsp = 0 }

unfoldable pub task_trampoline : Core → Statics → Statics
task_trampoline c s = record s { trampoline_entry_rsp = c.rsp }

-- The assertion before the loop.
unfoldable pub entry_check : Statics → Outcome (Unit {0})
entry_check s = assert (s.trampoline_entry_rsp % 16 == 8)

-- The driver's side of the switch.
unfoldable pub switch_in : Context → Core → Statics → Core × Statics
switch_in ctx d s = let (saved, c) = context_switch ctx d in (c, record s { sched_ctx = saved })

-- The task's side, at the end of a round.
unfoldable pub yield_back : Core → Statics → Context × Core
yield_back c s = context_switch s.sched_ctx c

module _ (work : Core → Outcome Core) where
  -- From the driver into a task that has run before, and back.
  unfoldable pub visit : Context → Core → Statics → Outcome (Context × Core × Statics)
  unfolding switch_in yield_back
  visit ctx d s = do
    let (c, s1) = switch_in ctx d s
    c2 ← work c
    let (kept, d2) = yield_back c2 s1
    done (kept, d2, s1)

  -- The first visit goes through the shim and the assertion.
  unfoldable pub first_visit : Context → Core → Statics → Outcome (Context × Core × Statics)
  unfolding switch_in task_trampoline entry_check yield_back
  first_visit ctx d s = do
    let (c, s1) = switch_in ctx d s
    let s2 : Statics = task_trampoline c s1
    entry_check s2
    c2 ← work c
    let (kept, d2) = yield_back c2 s2
    done (kept, d2, s2)

-- The task has worked from `c` to `c2` on a stack that does not meet the frame of the driver `d`.
pub record IsWork (work : Core → Outcome Core) (d c c2 : Core) : Type 0 where
  pub worked : work c ≡ done c2
  pub above : 48 ≤ c2.rsp
  pub below : c2.rsp < u64_mod
  pub apart : (c2.rsp + 48 ≤ d.rsp) ⊎ (d.rsp + 56 ≤ c2.rsp)
  pub frame : words_at c2.mem (save d).rsp 7 ≡ words_at (save d).mem (save d).rsp 7

-- The driver `d` after the task has left off at `c2`.
abbrev pub back_home : Core → Core → Core
back_home d c2 = record (save c2) { callee = d.callee; rip = d.mem d.rsp; rsp = d.rsp + 8 }

resumed :
    (work : Core → Outcome Core) (ctx : Context) (d c c2 : Core)
    → 48 ≤ d.rsp
    → d.rsp + 8 < u64_mod
    → IsWork work d c c2
    → (context_switch (context_switch ctx d).0 c2).1 ≡ back_home d c2
unfolding context_switch ret restore
resumed work ctx d c c2 room small w =
    context_switch-resumes d c2 ctx room small w.above w.below w.apart w.frame

visit-at :
    (work : Core → Outcome Core) (ctx : Context) (d c c2 d2 : Core) (s : Statics)
    → (context_switch ctx d).1 ≡ c
    → work c ≡ done c2
    → (context_switch (context_switch ctx d).0 c2).1 ≡ d2
    → (s' : Statics) × (visit work ctx d s
        ≡ done ((context_switch (context_switch ctx d).0 c2).0, d2, s'))
unfolding visit switch_in yield_back
visit-at work ctx d c c2 d2 s entered worked home =
    (record s { sched_ctx = (context_switch ctx d).0 }, rw (entered, worked, home) refl)

first_visit-at :
    (work : Core → Outcome Core) (ctx : Context) (d c c2 d2 : Core) (s : Statics)
    → (context_switch ctx d).1 ≡ c
    → c.rsp % 16 ≡ 8
    → work c ≡ done c2
    → (context_switch (context_switch ctx d).0 c2).1 ≡ d2
    → (s' : Statics) × (first_visit work ctx d s
        ≡ done ((context_switch (context_switch ctx d).0 c2).0, d2, s'))
unfolding first_visit switch_in task_trampoline entry_check yield_back
first_visit-at work ctx d c c2 d2 s entered parity worked home = (
  record { sched_ctx = (context_switch ctx d).0; trampoline_entry_rsp = c.rsp },
  rw (entered, (==_iff (c.rsp % 16) 8).1 parity, worked, home) refl,
)

-- The first visit to a fresh task, on an aligned stack with room, from a driver whose frame lies
-- outside it: the assertion on the parity of the entry passes, the task starts in the trampoline
-- with zeroed registers, and if it leaves the frame of the driver alone, the driver goes on behind
-- its call with its six registers and the stack pointer one word above its return address, while
-- the context of the task says where it left off.
pub first_visit-returns :
    (work : Core → Outcome Core) (trampoline top : ℕ) (mem : ℕ → ℕ) (d c2 : Core) (s : Statics)
    → top % 16 ≡ 0
    → 64 ≤ top
    → top < u64_mod
    → 48 ≤ d.rsp
    → d.rsp + 8 < u64_mod
    → (d.rsp + 64 ≤ top) ⊎ (top + 40 ≤ d.rsp)
    → IsWork work d (record (save d) { callee = no_registers; rip = trampoline; rsp = top - 8 }) c2
    → (ctx : Context) × (mem' : ℕ → ℕ) × (init_task_context trampoline top mem ≡ done (ctx, mem'))
      × (d.mem ≡ mem'
          → (s' : Statics) × (first_visit work ctx d s
              ≡ done (record { rsp = (save c2).rsp }, back_home d c2, s')))
unfolding first_visit context_switch
first_visit-returns work trampoline top mem d c2 s al room small room' small' apart w =
    let (ctx, mem', built, parity, enters) =
      init_task_context-enters trampoline top mem al room small in
    (
      ctx,
      mem',
      built,
      λ e.
          first_visit-at work ctx d _ c2 (back_home d c2) s (enters d room' (omega arith) apart e)
            parity w.worked (resumed work ctx d _ c2 room' small' w),
    )

-- A later visit: the task goes on where it left off at `t`, when the driver has left its frame
-- alone, and the driver then goes on behind its call.
pub visit-resumes :
    (work : Core → Outcome Core) (t d c2 : Core) (s : Statics)
    → 48 ≤ t.rsp
    → t.rsp + 8 < u64_mod
    → 48 ≤ d.rsp
    → d.rsp + 8 < u64_mod
    → (d.rsp + 48 ≤ t.rsp) ⊎ (t.rsp + 56 ≤ d.rsp)
    → words_at d.mem (save t).rsp 7 ≡ words_at (save t).mem (save t).rsp 7
    → IsWork work d (back_home t d) c2
    → (s' : Statics) × (visit work (record { rsp = (save t).rsp }) d s
        ≡ done (record { rsp = (save c2).rsp }, back_home d c2, s'))
unfolding context_switch ret restore
visit-resumes work t d c2 s room small room' small' apart frame w =
    visit-at work (record { rsp = (save t).rsp }) d (back_home t d) c2 (back_home d c2) s
      (context_switch-resumes t d (record { rsp = 0 }) room small room' (omega arith) apart frame)
      w.worked (resumed work (record { rsp = (save t).rsp }) d (back_home t d) c2 room' small' w)
