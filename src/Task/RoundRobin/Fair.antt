-- ===== src/Task/RoundRobin/Fair.antt =====
-- A round robin of well-behaved closures runs out, and everyone has had the steps that were due.
use mathlib.Core.List.{Perm, append-nil}
use mathlib.Core.List.Perm
use rusty_core.Prelude.{
  ℕ, zero, suc, ◌≡◌, refl, sym, subst, Bool, List, [], ◌∷◌, ◌++◌, map, arith, Outcome,
}
use rusty_core.Preempt.Table.Lifecycle.{IsConsistent}
use rusty_core.Task.Ledger.{Line}
use rusty_core.Task.Run.{Kernel, Sched}
use rusty_core.Task.RoundRobin.{schedule_once}
use rusty_core.Task.RoundRobin.Rota.{rotate, total, total-rotate, rotate-Perm}
use rusty_core.Task.Run.Jobs.{Job, share}
use rusty_core.Task.Run.Jobs.{IsTame, Turns}
use rusty_core.Task.RoundRobin.Refines.{Represents, schedule_once-Represents}

module _ {σ : Type 0} (run_step : ℕ → Kernel σ → Outcome (Bool × Kernel σ)) (left : ℕ → σ → ℕ) where
  -- What the scheduler holds when all jobs are done.
  pub record IsOver (js : List Job) (s s' : Sched) (k' : Kernel σ) : Type 0 where
    pub empty : s'.ready ≡ []
    pub shares : Perm s'.finished_runs (s.finished_runs ++ map share js)
    pub consistent : IsConsistent k'.table

  IsOver-nil : (s : Sched) (k : Kernel σ) → Represents run_step left [] s k → IsOver [] s s k
  IsOver-nil s k rep = record {
    empty = rep.queued;
    shares =
        subst (λ (l : List Line). Perm s.finished_runs l) (sym (append-nil s.finished_runs))
          (Perm.refl _);
    consistent = rep.consistent;
  }

  -- From a queue of ready tasks, seated in distinct boxes with distinct closures that behave, round
  -- robin runs empty after exactly as many calls as steps are due: each call runs a task, and the ledger
  -- gains one line for each task, with all its steps, in some order.
  pub schedule_once-shares :
      (n : ℕ) (js : List Job) (s : Sched) (k : Kernel σ)
      → IsTame run_step left
      → Represents run_step left js s k
      → n ≡ total js
      → (s' : Sched) × (k' : Kernel σ) × Turns (schedule_once run_step) n s k s' k'
        × IsOver js s s' k'
  unfolding total Turns
  schedule_once-shares zero [] s k tame rep e = (s, k, (refl, refl), IsOver-nil s k rep)
  schedule_once-shares (suc n) [] s k tame rep e = absurd (omega arith)
  schedule_once-shares zero (j ∷ js) s k tame rep e =
      let due = rep.waiting.0.some_due in absurd (omega arith)
  schedule_once-shares (suc n) (j ∷ js) s k tame rep e =
      let due = rep.waiting.0.some_due in
      let (s1, k1, ran, rep1, log) = schedule_once-Represents run_step left j js s k tame rep in
      let (s', k', turns, over) =
        schedule_once-shares n (rotate (j ∷ js)) s1 k1 tame rep1
          (omega (arith, total-rotate j js due)) in
      (
        s',
        k',
        (s1, k1, ran, turns),
        record {
          empty = over.empty;
          shares = Perm.trans over.shares (
              subst
                (λ (l : List Line).
                  Perm (l ++ map share (rotate (j ∷ js))) (s.finished_runs ++ map share (j ∷ js)))
                (sym log) (rotate-Perm j js s.finished_runs due));
          consistent = over.consistent;
        },
      )
