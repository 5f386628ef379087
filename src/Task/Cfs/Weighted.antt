-- ===== src/Task/Cfs/Weighted.antt =====
-- The abstract queue of `Cfs`: jobs with what they have been charged, and what a step costs them.
use native.Mathlib.Nat.{add-mul}
use native.Mathlib.Numerals.{towards_suc}
use rusty_core.Prelude.{
  subst, ℕ, ◌+◌, ◌-◌, ◌*◌, ◌≤◌, ◌<◌, ◌≡◌, ap, ◌∙◌, List, [], ◌∷◌, ◌++◌, map, if◌then◌else◌, ◌==◌,
  Bool-cases, inl, inr, arith, u64_mod,
}
use rusty_core.Prelude.Vecs.{push, All}
use rusty_core.Task.Ledger.{Line}
use rusty_core.Task.Run.Jobs.{Job, stepped}

pub record Entry : Type 0 where
  pub job : Job
  pub vruntime : ℕ
  pub cost : ℕ

abbrev pub jobs : List Entry → List Job
jobs es = map (λ (e : Entry). e.job) es

abbrev pub boxes : List Entry → List ℕ
boxes es = map (λ (e : Entry). e.job.box) es

-- The entry after one more step.
abbrev pub charged : Entry → Entry
charged e = record { job = stepped e.job; vruntime = e.vruntime + e.cost; cost = e.cost }

-- The queue after the turn of an entry that has left it: the entry comes back unless that was its last.
unfoldable pub requeue : List Entry → Entry → List Entry
requeue rest e = if e.job.due == 1 then rest else push rest (charged e)

unfoldable pub closing : Entry → List Line
closing e = if e.job.due == 1 then (e.job.id, e.job.name, e.job.ran + 1) ∷ [] else []

unfoldable pub due_steps : List Entry → ℕ
due_steps [] = 0
due_steps (e ∷ es) = e.job.due + due_steps es

-- An entry has been charged for all its steps, none costs more than `most`, and the clock has room for those that it has left.
pub record IsCharged (most : ℕ) (e : Entry) : Type 0 where
  pub paid : e.vruntime ≡ e.job.ran * e.cost
  pub cost_le : e.cost ≤ most
  pub due : 0 < e.job.due
  pub room : (e.job.ran + e.job.due) * e.cost < u64_mod

-- The charges of all entries lie within `most` of each other.
abbrev pub IsWithin : ℕ → ℕ → Entry → Type 0
IsWithin most low e = (low ≤ e.vruntime) × (e.vruntime ≤ low + most)

pub record IsFair (most : ℕ) (es : List Entry) : Type 0 where
  pub low : ℕ
  pub within : All (IsWithin most low) es
  pub charged : All (IsCharged most) es

module _ (P : Entry → Type 0) where
  All-join : (front back : List Entry) → All P front → All P back → All P (front ++ back)
  All-join [] back f b = b
  All-join (e ∷ front) back f b = (f.0, All-join front back f.1 b)

  -- The entry that leaves, and those that stay.
  pub All-leave :
      (front : List Entry) (e : Entry) (back : List Entry)
      → All P (front ++ (e ∷ back))
      → P e × All P (front ++ back)
  All-leave [] e back h = h
  All-leave (d ∷ front) e back h =
      let (here, rest) = All-leave front e back h.1 in (here, (h.0, rest))

  pub All-push : (es : List Entry) (e : Entry) → All P es → P e → All P (push es e)
  unfolding push
  All-push es e h p = All-join es (e ∷ []) h (p, tt)

pub All-both :
    (P Q R : Entry → Type 0) (es : List Entry)
    → ((e : Entry) → P e → Q e → R e)
    → All P es
    → All Q es
    → All R es
All-both P Q R [] f p q = tt
All-both P Q R (e ∷ es) f p q = (f e p.0 q.0, All-both P Q R es f p.1 q.1)

next_product : (n c : ℕ) → (n + 1) * c ≡ n * c + c
next_product n c = simp towards_suc (omega arith)

-- The clock has room for one more charge.
pub charge_room : (most : ℕ) (e : Entry) → IsCharged most e → e.vruntime + e.cost < u64_mod
charge_room most e h =
    let split : (e.job.ran + e.job.due) * e.cost
        ≡ (e.job.ran + 1) * e.cost + (e.job.due - 1) * e.cost =
      ap (λ (n : ℕ). n * e.cost) {x = e.job.ran + e.job.due} {y = (e.job.ran + 1) + (e.job.due - 1)}
        (omega (arith, h.due))
      ∙ add-mul (e.job.ran + 1) (e.job.due - 1) e.cost in
    omega (arith, h.paid, h.room, split, next_product e.job.ran e.cost)

charged-IsCharged :
    (most : ℕ) (e : Entry) → IsCharged most e → 1 < e.job.due → IsCharged most (charged e)
charged-IsCharged most e h more = record {
  paid = omega (arith, h.paid, next_product e.job.ran e.cost);
  cost_le = h.cost_le;
  due = omega arith;
  room = subst (λ (n : ℕ). n * e.cost < u64_mod) {x = e.job.ran + e.job.due} (omega arith) h.room;
}

-- A turn of the least entry keeps the queue fair.
pub requeue-IsFair :
    (most : ℕ) (front : List Entry) (e : Entry) (back : List Entry)
    → All (λ d. e.vruntime ≤ d.vruntime) (front ++ (e ∷ back))
    → IsFair most (front ++ (e ∷ back))
    → IsFair most (requeue (front ++ back) e)
unfolding requeue
requeue-IsFair most front e back least fair =
    let (v, vs) = All-leave (λ d. e.vruntime ≤ d.vruntime) front e back least in
    let (w, ws) = All-leave (IsWithin most fair.low) front e back fair.within in
    let (c, cs) = All-leave (IsCharged most) front e back fair.charged in
    let rest : All (IsWithin most e.vruntime) (front ++ back) =
      All-both _ _ _ (front ++ back)
        (λ d lt old. let (below, above) = old in (lt, omega (arith, w.0))) vs ws in
    elim (Bool-cases (e.job.due == 1)) [
      | inl last ↦ rw last (record { low = e.vruntime; within = rest; charged = cs })
      | inr more ↦ rw more (record {
        low = e.vruntime;
        within =
            All-push (IsWithin most e.vruntime) (front ++ back) (charged e) rest
              (omega arith, omega (arith, c.cost_le));
        charged =
            All-push (IsCharged most) (front ++ back) (charged e) cs
              (charged-IsCharged most e c (ground (arith, c.due)));
      })
    ]
