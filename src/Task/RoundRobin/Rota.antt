-- ===== src/Task/RoundRobin/Rota.antt =====
-- The abstract round robin: a queue of jobs, each with the steps that it still has to take.
use mathlib.Core.List.{Perm, append_assoc, append-nil, perm_append_singleton}
use mathlib.Core.List.Perm
use rusty_core.Prelude.{
  ℕ, ◌+◌, ◌<◌, ◌≡◌, refl, sym, ap, ◌∙◌, subst, List, [], ◌∷◌, ◌++◌, map, if◌then◌else◌, ◌==◌, arith,
  Bool-cases, inl, inr,
}
use rusty_core.Prelude.Vecs.{push}
use rusty_core.Task.Ledger.{Line}
use rusty_core.Task.Run.Jobs.{Job, stepped, share}

-- The first job takes a step: it leaves after its last, and queues up again after any other.
unfoldable pub rotate : List Job → List Job
rotate [] = []
rotate (j ∷ js) = if j.due == 1 then js else push js (stepped j)

-- The line that the turn adds to the ledger.
unfoldable pub logged : List Job → List Line
logged [] = []
logged (j ∷ js) = if j.due == 1 then (j.id, j.name, j.ran + 1) ∷ [] else []

-- The steps that are due.
unfoldable pub total : List Job → ℕ
total [] = 0
total (j ∷ js) = j.due + total js

total-push : (js : List Job) (j : Job) → total (push js j) ≡ total js + j.due
unfolding total push
total-push [] j = omega arith
total-push (i ∷ js) j = omega (arith, total-push js j)

pub total-rotate :
    (j : Job) (js : List Job) → 0 < j.due → total (rotate (j ∷ js)) + 1 ≡ total (j ∷ js)
unfolding total rotate
total-rotate j js due = elim (Bool-cases (j.due == 1)) [
  | inl last ↦ rw last (ground arith)
  | inr more ↦ rw more (omega (arith, total-push js (stepped j)))
]

pub map-push :
    {B : Type 0} (f : Job → B) (js : List Job) (j : Job) → map f (push js j) ≡ push (map f js) (f j)
unfolding push
map-push f [] j = refl
map-push {B} f (i ∷ js) j = ap (λ (l : List B). f i ∷ l) (map-push f js j)

leave-Perm :
    (log rest : List Line) (x y : Line)
    → x ≡ y
    → Perm ((log ++ (x ∷ [])) ++ rest) (log ++ (y ∷ rest))
leave-Perm log rest x y e =
    subst (λ (l : List Line). Perm ((log ++ (x ∷ [])) ++ rest) l)
      (append_assoc log (x ∷ []) rest ∙ ap (λ (z : Line). log ++ (z ∷ rest)) e) (Perm.refl _)

queue-Perm :
    (log rest : List Line) (x y : Line)
    → x ≡ y
    → Perm ((log ++ []) ++ push rest x) (log ++ (y ∷ rest))
unfolding push
queue-Perm log rest x y e =
    subst (λ (l : List Line). Perm (l ++ push rest x) (log ++ (y ∷ rest))) (sym (append-nil log))
      (Perm.append_left log
        (subst (λ (z : Line). Perm (push rest x) (z ∷ rest)) e (perm_append_singleton x rest)))

-- A turn moves shares from the queue to the ledger, and loses none.
pub rotate-Perm :
    (j : Job) (js : List Job) (log : List Line)
    → 0 < j.due
    → Perm ((log ++ logged (j ∷ js)) ++ map share (rotate (j ∷ js))) (log ++ map share (j ∷ js))
unfolding rotate logged
rotate-Perm j js log due = elim (Bool-cases (j.due == 1)) [
  | inl last ↦ rw last (
      leave-Perm log (map share js) (j.id, j.name, j.ran + 1) (share j)
        (ap (λ (n : ℕ). (j.id, j.name, n)) (ground arith)))
  | inr more ↦
      rw (more, map-push share js (stepped j))
        (queue-Perm log (map share js) (share (stepped j)) (share j)
          (ap (λ (n : ℕ). (j.id, j.name, n)) (ground arith)))
]
