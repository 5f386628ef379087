-- ===== src/Task/RoundRobin/Tests.antt =====
-- Two workers under the round robin.
use rusty_core.Prelude.{ℕ, ◌≡◌, refl, true, [], ◌∷◌, ◌++◌, arith, done}
use rusty_core.Task.Run.{Kernel, Sched, new_sched}
use rusty_core.Task.RoundRobin.{schedule_once}
use rusty_core.Task.Workers.{
  counting, count_down, remaining, first_job, second_job, count_down-IsTame, first_job-IsWaiting,
  second_job-IsWaiting, full_table-IsConsistent,
}
use rusty_core.Task.RoundRobin.Rota.{rotate, logged, total}
use rusty_core.Task.Run.Jobs.{Turns}
use rusty_core.Task.RoundRobin.Refines.{Represents, schedule_once-Represents}
use rusty_core.Task.RoundRobin.Fair.{IsOver, schedule_once-shares}

abbrev queued : Sched
queued = record new_sched { ready = 200 ∷ 100 ∷ [] }

counting-Represents : Represents count_down remaining (first_job ∷ second_job ∷ []) queued counting
counting-Represents = record {
  queued = refl;
  waiting = (first_job-IsWaiting, (second_job-IsWaiting, tt));
  apart = (((omega arith, omega arith), tt), (tt, tt));
  consistent = full_table-IsConsistent;
}

schedule_once-Represents_example :
    (s' : Sched) × (k' : Kernel (ℕ → ℕ)) × (schedule_once count_down queued counting
      ≡ done (true, s', k'))
    × Represents count_down remaining (rotate (first_job ∷ second_job ∷ [])) s' k'
    × (s'.finished_runs ≡ [] ++ logged (first_job ∷ second_job ∷ []))
schedule_once-Represents_example =
    schedule_once-Represents count_down remaining first_job (second_job ∷ []) queued counting
      count_down-IsTame counting-Represents

three_due : 3 ≡ total (first_job ∷ second_job ∷ [])
unfolding total
three_due = refl

schedule_once-shares_example :
    (s' : Sched) × (k' : Kernel (ℕ → ℕ)) × Turns (schedule_once count_down) 3 queued counting s' k'
    × IsOver count_down remaining (first_job ∷ second_job ∷ []) queued s' k'
schedule_once-shares_example =
    schedule_once-shares count_down remaining 3 (first_job ∷ second_job ∷ []) queued counting
      count_down-IsTame counting-Represents three_due
