-- ===== src/Task/RoundRobin/Refines.antt =====
-- `RoundRobin` refines the abstract queue of jobs, while the closures behave.
use mathlib.Core.List.{append-nil}
use rusty_core.Prelude.{
  ℕ, ◌+◌, ◌≡◌, refl, sym, ap, ◌∙◌, Bool, true, false, List, [], ◌∷◌, ◌++◌, map, ◌==◌, ltb, arith,
  Bool-cases, inl, inr, Outcome, done,
}
use rusty_core.Prelude.Vecs.{push, All}
use rusty_core.Preempt.Table.Lifecycle.{IsConsistent}
use rusty_core.Task.Spawn.{Task}
use rusty_core.Task.Ledger.{Line}
use rusty_core.Task.Run.{Kernel, Sched}
use rusty_core.Task.Run.Turn.{after, after-task, after-IsConsistent}
use rusty_core.Task.RoundRobin.{dispatch, schedule_once}
use rusty_core.Task.RoundRobin.Fifo.{schedule_once-fifo}
use rusty_core.Task.RoundRobin.Rota.{rotate, logged, map-push}
use rusty_core.Task.Run.Jobs.{
  Job, stepped, AreApart, All-push, AreApart-push, IsTame, IsWaiting, all_spared, awake,
}
use rusty_core.Task.Run.Steps.{turn-IsStep, room, after-IsSpared, own-IsWaiting, freed-IsSpared}
use rusty_core.Task.RoundRobin.Steps.{turn_on, turn_out}

module _ {σ : Type 0} (run_step : ℕ → Kernel σ → Outcome (Bool × Kernel σ)) (left : ℕ → σ → ℕ) where
  -- The queue holds the boxes of the jobs, in their order.
  pub record Represents (js : List Job) (s : Sched) (k : Kernel σ) : Type 0 where
    pub queued : s.ready ≡ map (λ (j : Job). j.box) js
    pub waiting : All (λ j. IsWaiting run_step left j k) js
    pub apart : AreApart js
    pub consistent : IsConsistent k.table

  schedule_once-head :
      (j : Job) (rest : List ℕ) (s : Sched) (k : Kernel σ)
      → IsWaiting run_step left j k
      → s.ready ≡ j.box ∷ rest
      → schedule_once run_step s k ≡ dispatch run_step j.box (record s { ready = rest }) k
  schedule_once-head j rest s k w queued =
      schedule_once-fifo run_step k s [] j.box rest queued tt (awake run_step left j k w)
      ∙ ap (λ (l : List ℕ). dispatch run_step j.box (record s { ready = l }) k) (append-nil rest)

  log-push : (log : List Line) (line : Line) → push log line ≡ log ++ (line ∷ [])
  unfolding push
  log-push log line = refl

  -- On a queue of ready tasks, seated in distinct boxes with distinct closures that behave, one call of
  -- `schedule_once` is one turn of the abstract queue: the first job takes a step, and either queues up
  -- again at the back or, after its last, leaves its line in the ledger. The tasks, the slots and the
  -- table keep standing for the queue.
  pub schedule_once-Represents :
      (j : Job) (js : List Job) (s : Sched) (k : Kernel σ)
      → IsTame run_step left
      → Represents (j ∷ js) s k
      → (s' : Sched) × (k' : Kernel σ) × (schedule_once run_step s k ≡ done (true, s', k'))
        × Represents (rotate (j ∷ js)) s' k'
        × (s'.finished_runs ≡ s.finished_runs ++ logged (j ∷ js))
  unfolding rotate logged
  schedule_once-Represents j js s k tame rep =
      let w = rep.waiting.0 in
      let rest = map (λ (i : Job). i.box) js in
      let (k2, step, kept) = turn-IsStep run_step left j k tame w in
      let turned = schedule_once-head j rest s k w rep.queued in
      elim (Bool-cases (j.due == 1)) [
        | inl last ↦
            let k3 : Kernel σ = after run_step j.box (ltb 1 j.due) k2 in
            let ends : ltb 1 j.due ≡ false = ground arith in
            let (k', ran, released) =
              turn_out run_step left j k tame w (ltb 1 j.due) k2 step kept
                (record s { ready = rest }) ends in
            rw last (
              record s {
                ready = rest;
                finished_runs = push s.finished_runs (j.id, j.name, j.ran + 1);
              },
              k',
              turned ∙ ran,
              record {
                queued = refl;
                waiting =
                    all_spared run_step left j k k' js
                      (λ i other apart wi.
                        freed-IsSpared run_step left j k tame w (ltb 1 j.due) k2 step kept i k3 k'
                          other wi
                          (after-IsSpared run_step left j k tame w (ltb 1 j.due) k2 step kept i
                            other apart)
                          (ap (λ (t : Task). t.slot)
                            (after-task run_step j.box k (ltb 1 j.due) k2 w.seated step
                              (room run_step left j k tame w (ltb 1 j.due) k2 step kept)))
                          released)
                      rep.apart.0 rep.waiting.1;
                apart = rep.apart.1;
                consistent = released.consistent;
              },
              log-push s.finished_runs (j.id, j.name, j.ran + 1),
            )
        | inr more ↦
            let stays : ltb 1 j.due ≡ true = ground (arith, w.some_due) in
            let k3 : Kernel σ = after run_step j.box (ltb 1 j.due) k2 in
            rw more (
              record s { ready = push rest j.box },
              k3,
              turned
                  ∙ turn_on run_step left j k tame w (ltb 1 j.due) k2 step kept
                      (record s { ready = rest }) stays,
              record {
                queued = sym (map-push (λ (i : Job). i.box) js (stepped j));
                waiting =
                    All-push (λ i. IsWaiting run_step left i k3) js (stepped j)
                      (all_spared run_step left j k k3 js
                        (λ i other apart wi.
                          after-IsSpared run_step left j k tame w (ltb 1 j.due) k2 step kept i other
                            apart)
                        rep.apart.0 rep.waiting.1)
                      (own-IsWaiting run_step left j k tame w (ltb 1 j.due) k2 step kept stays
                        (ground (arith, w.some_due)));
                apart = AreApart-push js (stepped j) rep.apart.0 rep.apart.1;
                consistent =
                    after-IsConsistent run_step j.box k (ltb 1 j.due) k2 w.seated step
                      (room run_step left j k tame w (ltb 1 j.due) k2 step kept);
              },
              sym (append-nil s.finished_runs),
            )
      ]
