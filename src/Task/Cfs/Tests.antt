-- ===== src/Task/Cfs/Tests.antt =====
-- Two workers of different weight under `Cfs`.
use rusty_core.Prelude.{ℕ, ◌+◌, ◌≤◌, ◌≡◌, refl, true, List, [], ◌∷◌, ◌++◌, arith, done}
use rusty_core.Prelude.Vecs.{All}
use rusty_core.Task.Run.{Kernel, Sched, new_sched}
use rusty_core.Task.Run.Jobs.{Turns}
use rusty_core.Task.Workers.{
  counting, count_down, remaining, first_job, second_job, count_down-IsTame, first_job-IsWaiting,
  second_job-IsWaiting, full_table-IsConsistent,
}
use rusty_core.Task.Cfs.{schedule_once}
use rusty_core.Task.Cfs.Weighted.{Entry, requeue, closing, due_steps, IsCharged, IsFair}
use rusty_core.Task.Cfs.Refines.{Represents, schedule_once-least}
use rusty_core.Task.Cfs.Fair.{IsEven, schedule_once-IsEven}

-- Of weight 2048, after four steps, and of weight 512, before the first.
abbrev heavy : Entry
heavy = record { job = first_job; vruntime = 200; cost = 50 }

abbrev light : Entry
light = record { job = second_job; vruntime = 0; cost = 200 }

abbrev queued : Sched
queued = record new_sched { ready = 200 ∷ 100 ∷ [] }

workers-Represents : Represents count_down remaining (heavy ∷ light ∷ []) queued counting
workers-Represents = record {
  queued = refl;
  waiting = (first_job-IsWaiting, (second_job-IsWaiting, tt));
  billed = ((refl, refl), ((refl, refl), tt));
  apart = (((omega arith, omega arith), tt), (tt, tt));
  consistent = full_table-IsConsistent;
}

heavy-IsCharged : IsCharged 200 heavy
heavy-IsCharged = record {
  paid = omega arith;
  cost_le = omega arith;
  due = omega arith;
  room = omega arith;
}

light-IsCharged : IsCharged 200 light
light-IsCharged = record {
  paid = omega arith;
  cost_le = omega arith;
  due = omega arith;
  room = omega arith;
}

workers-IsFair : IsFair 200 (heavy ∷ light ∷ [])
workers-IsFair = record {
  low = 0;
  within = ((omega arith, omega arith), ((omega arith, omega arith), tt));
  charged = (heavy-IsCharged, (light-IsCharged, tt));
}

two_of_three : 2 ≤ due_steps (heavy ∷ light ∷ [])
unfolding due_steps
two_of_three = omega arith

schedule_once-least_example :
    (front : List Entry) × (e : Entry) × (back : List Entry) × (heavy ∷ light ∷ []
      ≡ front ++ (e ∷ back))
    × All (λ (d : Entry). e.vruntime ≤ d.vruntime) (front ++ (e ∷ back))
    × (s' : Sched) × (k' : Kernel (ℕ → ℕ)) × (schedule_once count_down queued counting
        ≡ done (true, s', k'))
    × Represents count_down remaining (requeue (front ++ back) e) s' k'
    × (s'.finished_runs ≡ [] ++ closing e)
schedule_once-least_example =
    schedule_once-least count_down remaining 200 heavy (light ∷ []) queued counting
      count_down-IsTame (heavy-IsCharged, (light-IsCharged, tt)) workers-Represents

schedule_once-IsEven_example :
    (es' : List Entry) × (s' : Sched) × (k' : Kernel (ℕ → ℕ)) × Turns
      (schedule_once count_down)
      2
      queued
      counting
      s'
      k'
    × Represents count_down remaining es' s' k'
    × (due_steps es' + 2 ≡ due_steps (heavy ∷ light ∷ []))
    × IsEven 200 es'
schedule_once-IsEven_example =
    schedule_once-IsEven count_down remaining 2 200 (heavy ∷ light ∷ []) queued counting
      count_down-IsTame workers-IsFair workers-Represents two_of_three
