-- ===== src/Task/RoundRobin/Fifo.antt =====
-- Whose turn it is under `RoundRobin`.
use rusty_core.Prelude.{
  ℕ, suc, ◌+◌, ◌≡◌, refl, sym, ap, ◌∙◌, Bool, true, false, List, [], ◌∷◌, ◌++◌, length, Outcome,
  done, arith, length-append,
}
use rusty_core.Prelude.Vecs.{push, All}
use rusty_core.Task.Run.{Kernel, Sched, parked}
use rusty_core.Task.RoundRobin.{dispatch, pass, schedule_once}

push-append : {A : Type 0} (xs ys : List A) (a : A) → push (xs ++ ys) a ≡ xs ++ push ys a
unfolding push
push-append [] ys a = refl
push-append (x ∷ xs) ys a = ap (λ l. x ∷ l) (push-append xs ys a)

append-push : {A : Type 0} (xs ys : List A) (a : A) → push xs a ++ ys ≡ xs ++ (a ∷ ys)
unfolding push
append-push [] ys a = refl
append-push (x ∷ xs) ys a = ap (λ l. x ∷ l) (append-push xs ys a)

append-nil : {A : Type 0} (xs : List A) → xs ++ [] ≡ xs
append-nil [] = refl
append-nil (x ∷ xs) = ap (λ l. x ∷ l) (append-nil xs)

zero_plus : (n : ℕ) → 0 + n ≡ n
zero_plus n = omega arith

plus_zero : (n : ℕ) → n + 0 ≡ n
plus_zero n = omega arith

suc_plus : (m n : ℕ) → suc m + n ≡ suc (m + n)
suc_plus m n = omega arith

module _ {σ : Type 0} (run_step : ℕ → Kernel σ → Outcome (Bool × Kernel σ)) (k : Kernel σ) where
  abbrev pub queue : Sched → List ℕ → Sched
  queue s l = record s { ready = l }

  -- The pass carries the sleepers at the front to the back, in order.
  pass-skips :
      (s : Sched) (front back : List ℕ) (n : ℕ)
      → All (λ a. parked a k ≡ true) front
      → pass run_step (length front + n) (queue s (front ++ back)) k
        ≡ pass run_step n (queue s (back ++ front)) k
  unfolding pass
  pass-skips s [] back n asleep = rw (zero_plus n, append-nil back)
  pass-skips s (a ∷ front) back n asleep =
      rw (suc_plus (length front) n, asleep.0, push-append front back a)
        (pass-skips s front (push back a) n asleep.1
          ∙ ap (λ (l : List ℕ). pass run_step n (queue s l) k) (append-push back front a))

  -- `schedule_once` hands the turn to the task that has waited longest of those awake, and the sleepers
  -- it passed over go to the back of the queue in their order.
  pub schedule_once-fifo :
      (s : Sched) (front : List ℕ) (a : ℕ) (back : List ℕ)
      → s.ready ≡ front ++ (a ∷ back)
      → All (λ b. parked b k ≡ true) front
      → parked a k ≡ false
      → schedule_once run_step s k ≡ dispatch run_step a (queue s (back ++ front)) k
  unfolding schedule_once pass
  schedule_once-fifo s front a back whole asleep awake =
      ap (λ (l : List ℕ). pass run_step (length l) (queue s l) k) whole
      ∙ ap (λ (n : ℕ). pass run_step n (queue s (front ++ (a ∷ back))) k)
          (length-append front (a ∷ back))
      ∙ pass-skips s front (a ∷ back) (suc (length back)) asleep
      ∙ turn (back ++ front)
    where
      turn :
          (rest : List ℕ)
          → pass run_step (suc (length back)) (queue s (a ∷ rest)) k
            ≡ dispatch run_step a (queue s rest) k
      turn rest = rw awake

  -- When every task sleeps, or none is left, `schedule_once` returns false and has changed nothing: the
  -- queue is in its old order.
  pub schedule_once-idle :
      (s : Sched)
      → All (λ b. parked b k ≡ true) s.ready
      → schedule_once run_step s k ≡ done (false, s, k)
  unfolding schedule_once pass
  schedule_once-idle s asleep =
      ap (λ (l : List ℕ). pass run_step (length s.ready) (queue s l) k) (sym (append-nil s.ready))
      ∙ ap (λ (n : ℕ). pass run_step n (queue s (s.ready ++ [])) k)
          (sym (plus_zero (length s.ready)))
      ∙ pass-skips s s.ready [] 0 asleep
