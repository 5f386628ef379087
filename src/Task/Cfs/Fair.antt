-- ===== src/Task/Cfs/Fair.antt =====
-- Over any number of turns of `Cfs` the charges of the tasks stay together.
use rusty_core.Prelude.{
  ℕ, zero, suc, ◌+◌, ◌*◌, ◌≤◌, ◌<◌, ◌≡◌, refl, sym, ap, ◌∙◌, subst, Bool, List, [], ◌∷◌, ◌++◌, ◌==◌,
  Bool-cases, inl, inr, arith, Outcome,
}
use rusty_core.Prelude.Vecs.{push, All}
use rusty_core.Task.Run.{Kernel, Sched}
use rusty_core.Task.Run.Jobs.{IsTame, Turns}
use rusty_core.Task.Cfs.{schedule_once}
use rusty_core.Task.Cfs.Weighted.{
  Entry, charged, requeue, due_steps, IsCharged, IsFair, All-leave, All-both, IsWithin,
  requeue-IsFair,
}
use rusty_core.Task.Cfs.Refines.{Represents, schedule_once-least}

due_steps-append :
    (front : List Entry) (e : Entry) (back : List Entry)
    → due_steps (front ++ (e ∷ back)) ≡ due_steps (front ++ back) + e.job.due
unfolding due_steps
due_steps-append [] e back = omega arith
due_steps-append (d ∷ front) e back = omega (arith, due_steps-append front e back)

due_steps-push : (es : List Entry) (e : Entry) → due_steps (push es e) ≡ due_steps es + e.job.due
unfolding due_steps push
due_steps-push [] e = omega arith
due_steps-push (d ∷ es) e = omega (arith, due_steps-push es e)

due_steps-requeue :
    (front : List Entry) (e : Entry) (back : List Entry)
    → 0 < e.job.due
    → due_steps (requeue (front ++ back) e) + 1 ≡ due_steps (front ++ (e ∷ back))
unfolding requeue
due_steps-requeue front e back due =
    let whole = due_steps-append front e back in
    elim (Bool-cases (e.job.due == 1)) [
      | inl last ↦ rw last (ground (arith, whole))
      | inr more ↦ rw more (omega (arith, whole, due_steps-push (front ++ back) (charged e)))
    ]

-- What any two entries have been charged, their steps at the cost of each, differs by no more than the largest cost.
pub IsEven : ℕ → List Entry → Type 0
IsEven most es =
    All (λ (d : Entry). All (λ (e : Entry). d.job.ran * d.cost ≤ e.job.ran * e.cost + most) es) es

IsFair-IsEven : (most : ℕ) (es : List Entry) → IsFair most es → IsEven most es
unfolding IsEven
IsFair-IsEven most es fair =
    All-both (IsWithin most fair.low) (IsCharged most) _ es
      (λ d inside paid.
        All-both (IsWithin most fair.low) (IsCharged most) _ es
          (λ e inside2 paid2. omega (arith, inside.1, inside2.0, paid.paid, paid2.paid)) fair.within
          fair.charged)
      fair.within fair.charged

module _ {σ : Type 0} (run_step : ℕ → Kernel σ → Outcome (Bool × Kernel σ)) (left : ℕ → σ → ℕ) where
  -- From a queue of ready tasks, seated in distinct boxes with distinct closures that behave, whose charges lie within the
  -- largest cost: as many calls as steps are due, or fewer, all run a task; and after them the charges still lie within
  -- the largest cost, so that of the tasks that are left none has had more than its share by weight, up to one step.
  pub schedule_once-IsEven :
      (n most : ℕ) (es : List Entry) (s : Sched) (k : Kernel σ)
      → IsTame run_step left
      → IsFair most es
      → Represents run_step left es s k
      → n ≤ due_steps es
      → (es' : List Entry) × (s' : Sched) × (k' : Kernel σ) × Turns
          (schedule_once run_step)
          n
          s
          k
          s'
          k'
        × Represents run_step left es' s' k'
        × (due_steps es' + n ≡ due_steps es)
        × IsEven most es'
  unfolding Turns due_steps
  schedule_once-IsEven zero most es s k tame fair rep enough =
      (es, s, k, (refl, refl), rep, omega arith, IsFair-IsEven most es fair)
  schedule_once-IsEven (suc n) most [] s k tame fair rep enough = absurd (omega arith)
  schedule_once-IsEven (suc n) most (e0 ∷ es0) s k tame fair rep enough =
      let (front, e, back, whole, least, s1, k1, ran, rep1, log) =
        schedule_once-least run_step left most e0 es0 s k tame fair.charged rep in
      let fair1 = requeue-IsFair most front e back least (subst (IsFair most) whole fair) in
      let due =
        ((All-leave (IsCharged most) front e back
          (subst (All (IsCharged most)) whole fair.charged)).0
        ).due in
      let fewer : due_steps (requeue (front ++ back) e) + 1 ≡ due_steps (e0 ∷ es0) =
        due_steps-requeue front e back due ∙ ap due_steps (sym whole) in
      let (es', s', k', turns, rep', count, even) =
        schedule_once-IsEven n most (requeue (front ++ back) e) s1 k1 tame fair1 rep1
          (omega (arith, fewer)) in
      (es', s', k', (s1, k1, ran, turns), rep', omega (arith, fewer, count), even)
