-- ===== src/Task/Ledger.antt =====
-- The ledger of kernel/src/task.rs: a line for every task, queued or finished, in the order of ids.
use rusty_core.Prelude.{ℕ, List, [], ◌∷◌, ◌++◌, map, if◌then◌else◌, leb}
use rusty_core.Task.Run.{Kernel, Sched}

abbrev pub Line : Type 0
Line = ℕ × List ℕ × ℕ

-- `sort_by_key(|(id, _, _)| *id)`, a stable sort, by insertion.
unfoldable pub insert : Line → List Line → List Line
insert x [] = x ∷ []
insert x (y ∷ ys) = let rest = insert x ys in if leb x.0 y.0 then x ∷ y ∷ ys else y ∷ rest

unfoldable pub sort_by_id : List Line → List Line
unfolding insert
sort_by_id [] = []
sort_by_id (x ∷ xs) = insert x (sort_by_id xs)

unfoldable pub ledger : {σ : Type 0} → Sched → Kernel σ → List Line
unfolding sort_by_id
ledger s k =
    sort_by_id
      (map (λ a. ((k.boxes a).id, (k.boxes a).name, (k.boxes a).runs)) s.ready ++ s.finished_runs)
