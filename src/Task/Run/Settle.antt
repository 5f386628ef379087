-- ===== src/Task/Run/Settle.antt =====
-- What becomes of a task after its turn.
use rusty_core.Prelude.{
  ℕ, ◌<◌, ◌≡◌, ◌≢◌, refl, true, false, none, arith, lt→ltb, ==_iff, update, done,
}
use rusty_core.Prelude.Vecs.{push}
use rusty_core.Preempt.Bitmap.{occupied}
use rusty_core.Preempt.Table.{Table, max_tasks, unregister_task}
use rusty_core.Preempt.Table.Lifecycle.{IsConsistent, unregister_task-IsConsistent}
use rusty_core.Task.Spawn.{TaskState}
use rusty_core.Task.Run.{Kernel, Sched, clear_task_ptr, retire, settle}

module _ {σ : Type 0} where
  -- A kernel that has let the task `a` go.
  pub record IsReleased (a : ℕ) (k k' : Kernel σ) : Type 0 where
    pub consistent : IsConsistent k'.table
    pub vacated : occupied k'.table.slot_used (k.boxes a).slot ≡ false
    pub unpointed : k'.task_ptrs (k.boxes a).slot ≡ none
    pub tasks : k'.boxes ≡ k.boxes
    pub memory : k'.mem ≡ k.mem
    pub captured : k'.captured ≡ k.captured
    pub pointers : (i : ℕ) → i ≢ (k.boxes a).slot → k'.task_ptrs i ≡ k.task_ptrs i
    pub occupancy :
        (i : ℕ)
        → i < max_tasks
        → i ≢ (k.boxes a).slot
        → occupied k'.table.slot_used i ≡ occupied k.table.slot_used i

  pub settle-ready :
      (a : ℕ) (s : Sched) (k : Kernel σ)
      → (k.boxes a).state ≡ TaskState.ready
      → settle a s k ≡ done (record s { ready = push s.ready a }, k)
  unfolding settle
  settle-ready a s k e = rw (e, settle)

  pointer-cleared :
      (idx : ℕ) (k : Kernel σ)
      → idx < max_tasks
      → clear_task_ptr idx k ≡ record k { task_ptrs = update k.task_ptrs idx none }
  unfolding clear_task_ptr
  pointer-cleared idx k lt = rw (lt→ltb idx max_tasks lt)

  retire-frees :
      (a : ℕ) (s : Sched) (k : Kernel σ) (t' : Table)
      → (k.boxes a).slot < max_tasks
      → unregister_task (k.boxes a).slot k.table ≡ done t'
      → retire a s k
        ≡ done (
          record s {
            finished_runs =
                push s.finished_runs ((k.boxes a).id, (k.boxes a).name, (k.boxes a).runs);
          },
          record k { task_ptrs = update k.task_ptrs (k.boxes a).slot none; table = t' },
        )
  unfolding retire
  retire-frees a s k t' lt freed = rw (pointer-cleared (k.boxes a).slot k lt, retire) (rw freed)

  pub settle-finished :
      (a : ℕ) (s : Sched) (k : Kernel σ)
      → (k.boxes a).state ≡ TaskState.finished
      → (k.boxes a).slot < max_tasks
      → occupied k.table.slot_used (k.boxes a).slot ≡ true
      → IsConsistent k.table
      → (k' : Kernel σ) × (settle a s k
          ≡ done (
            record s {
              finished_runs =
                  push s.finished_runs ((k.boxes a).id, (k.boxes a).name, (k.boxes a).runs);
            },
            k',
          ))
        × IsReleased a k k'
  unfolding settle
  settle-finished a s k e lt used c =
      let (t', freed, c', wiped, window, bits) =
        unregister_task-IsConsistent k.table (k.boxes a).slot c lt used in
      (
        record k { task_ptrs = update k.task_ptrs (k.boxes a).slot none; table = t' },
        rw (e, settle) (retire-frees a s k t' lt freed),
        record {
          consistent = c';
          vacated = ground (arith, bits (k.boxes a).slot lt);
          unpointed = rw ((==_iff (k.boxes a).slot (k.boxes a).slot).1 refl);
          tasks = refl;
          memory = refl;
          captured = refl;
          pointers = λ i other. ground arith;
          occupancy = λ i h other. ground (arith, bits i h);
        },
      )
