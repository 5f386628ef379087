-- ===== src/Task/Cfs/Refines.antt =====
-- `Cfs` refines the abstract weighted queue, while the closures behave.
use mathlib.Core.List.{append-nil}
use rusty_core.Prelude.{
  ℕ, zero, suc, ◌+◌, ◌≤◌, ◌≡◌, ◌≢◌, refl, sym, ap, ◌∙◌, subst, Bool, true, false, some, List, [],
  ◌∷◌, ◌++◌, ◌==◌, ltb, arith, Bool-cases, inl, inr, get_elem?, Outcome, done, saturating_add,
  some_inj,
}
use rusty_core.Prelude.Vecs.{push, All}
use rusty_core.Preempt.Table.Lifecycle.{IsConsistent}
use rusty_core.Task.Spawn.{Task}
use rusty_core.Task.Ledger.{Line}
use rusty_core.Task.Run.{Kernel, Sched, parked}
use rusty_core.Task.Run.Turn.{after}
use rusty_core.Task.Run.Jobs.{
  Job, stepped, IsApart, AreApart, AreApart-push, IsTame, IsWaiting, IsSpared, IsSpared-trans,
  all_spared, awake,
}
use rusty_core.Task.Run.Jobs
use rusty_core.Task.Run.Steps.{turn-IsStep, after-IsSpared, own-IsWaiting, freed-IsSpared}
use rusty_core.Task.Cfs.{slice, remove_at, pick_min, accrue, schedule_once}
use rusty_core.Task.Cfs.Pick.{pick_min-least}
use rusty_core.Task.Cfs.Weighted.{
  Entry, jobs, boxes, charged, requeue, closing, IsCharged, charge_room, All-leave, All-push,
}
use rusty_core.Task.Cfs.Charge.{
  billed, accrue-IsSpared, accrue-IsWaiting, ran-IsConsistent, paying-task, paying-IsConsistent,
  charge_on, charge_out,
}

-- The entry in the box at index `i`, and the queue without it.
find :
    (es : List Entry) (i a : ℕ)
    → get_elem? (boxes es) i ≡ some a
    → (front : List Entry) × (e : Entry) × (back : List Entry) × (es ≡ front ++ (e ∷ back))
      × (e.job.box ≡ a)
      × (remove_at (boxes es) i ≡ boxes (front ++ back))
unfolding remove_at
find [] i a h = cc
find (e ∷ es) zero a h = ([], e, es, refl, some_inj h, refl)
find (d ∷ es) (suc i) a h =
    let (front, e, back, whole, box, removed) = find es i a h in
    (
      d ∷ front,
      e,
      back,
      ap (λ (l : List Entry). d ∷ l) whole,
      box,
      ap (λ (l : List ℕ). d.job.box ∷ l) removed,
    )

module _ (P : Job → Type 0) where
  to_jobs : (es : List Entry) → All (λ (e : Entry). P e.job) es → All P (jobs es)
  to_jobs [] h = tt
  to_jobs (e ∷ es) h = (h.0, to_jobs es h.1)

  of_jobs : (es : List Entry) → All P (jobs es) → All (λ (e : Entry). P e.job) es
  of_jobs [] h = tt
  of_jobs (e ∷ es) h = (h.0, of_jobs es h.1)

  -- The job that leaves, and those that stay.
  jobs_leave :
      (front : List Entry) (e : Entry) (back : List Entry)
      → All P (jobs (front ++ (e ∷ back)))
      → P e.job × All P (jobs (front ++ back))
  jobs_leave front e back h =
      let (here, others) =
        All-leave (λ (d : Entry). P d.job) front e back (of_jobs (front ++ (e ∷ back)) h) in
      (here, to_jobs (front ++ back) others)

of_boxes :
    (P : ℕ → Type 0) (es : List Entry) → All P (boxes es) → All (λ (e : Entry). P e.job.box) es
of_boxes P [] h = tt
of_boxes P (e ∷ es) h = (h.0, of_boxes P es h.1)

jobs-push : (es : List Entry) (e : Entry) → jobs (push es e) ≡ push (jobs es) e.job
unfolding push
jobs-push [] e = refl
jobs-push (d ∷ es) e = ap (λ (l : List Job). d.job ∷ l) (jobs-push es e)

boxes-push : (es : List Entry) (e : Entry) → boxes (push es e) ≡ push (boxes es) e.job.box
unfolding push
boxes-push [] e = refl
boxes-push (d ∷ es) e = ap (λ (l : List ℕ). d.job.box ∷ l) (boxes-push es e)

-- One entry leaves a queue of jobs apart.
AreApart-leave :
    (front : List Entry) (e : Entry) (back : List Entry)
    → AreApart (jobs (front ++ (e ∷ back)))
    → All (IsApart e.job) (jobs (front ++ back)) × AreApart (jobs (front ++ back))
AreApart-leave [] e back h = h
AreApart-leave (d ∷ front) e back h =
    let (apart, rest) = AreApart-leave front e back h.1 in
    let (here, others) = jobs_leave (IsApart d.job) front e back h.0 in
    (((λ q. here.0 (sym q), λ q. here.1 (sym q)), apart), (others, rest))

module _ {σ : Type 0} (run_step : ℕ → Kernel σ → Outcome (Bool × Kernel σ)) (left : ℕ → σ → ℕ) where
  -- The task of an entry has its virtual runtime, and its weight gives the cost.
  abbrev pub IsBilled : Kernel σ → Entry → Type 0
  IsBilled k e =
      ((k.boxes e.job.box).vruntime ≡ e.vruntime) × (slice (k.boxes e.job.box).weight ≡ e.cost)

  -- The queue holds the boxes of the entries, in their order.
  pub record Represents (es : List Entry) (s : Sched) (k : Kernel σ) : Type 0 where
    pub queued : s.ready ≡ boxes es
    pub waiting : All (λ j. IsWaiting run_step left j k) (jobs es)
    pub billed : All (IsBilled k) es
    pub apart : AreApart (jobs es)
    pub consistent : IsConsistent k.table

  least_entries :
      (k : Kernel σ) (x : ℕ) (es : List Entry)
      → All (λ j. IsWaiting run_step left j k) (jobs es)
      → All (λ b. parked b k ≡ false → x ≤ (k.boxes b).vruntime) (boxes es)
      → All (IsBilled k) es
      → All (λ (d : Entry). x ≤ d.vruntime) es
  least_entries k x [] w l b = tt
  least_entries k x (d ∷ es) w l b = (
    subst (λ (v : ℕ). x ≤ v) b.0.0 (l.0 (awake run_step left d.job k w.0)),
    least_entries k x es w.1 l.1 b.1,
  )

  -- Among jobs that are all awake, `pick_min` finds one of the least virtual runtime.
  picked :
      (e0 : Entry) (es0 : List Entry) (s : Sched) (k : Kernel σ)
      → Represents (e0 ∷ es0) s k
      → (i : ℕ) × (front : List Entry) × (e : Entry) × (back : List Entry) × (e0 ∷ es0
          ≡ front ++ (e ∷ back))
        × (pick_min s k ≡ some i)
        × (get_elem? s.ready i ≡ some e.job.box)
        × (remove_at s.ready i ≡ boxes (front ++ back))
        × All (λ (d : Entry). e.vruntime ≤ d.vruntime) (front ++ (e ∷ back))
  picked e0 es0 s k rep = elim (pick_min-least k s) [
    | inl (none_found, sleeping) ↦
        let asleep =
          of_boxes (λ b. parked b k ≡ true) (e0 ∷ es0)
            (subst (All (λ b. parked b k ≡ true)) rep.queued sleeping) in
        let up = awake run_step left e0.job k rep.waiting.0 in cc (asleep.0, up)
    | inr (i, a, found, at, up, least) ↦
        let (front, e, back, whole, box, removed) =
          find (e0 ∷ es0) i a (subst (λ (l : List ℕ). get_elem? l i ≡ some a) rep.queued at) in
        (
          i,
          front,
          e,
          back,
          whole,
          found,
          at ∙ ap some (sym box),
          ap (λ (l : List ℕ). remove_at l i) rep.queued ∙ removed,
          least_of front e back whole (sym box) (
              least_entries k (k.boxes a).vruntime (e0 ∷ es0) rep.waiting
                (subst (All (λ b. parked b k ≡ false → (k.boxes a).vruntime ≤ (k.boxes b).vruntime))
                  rep.queued least)
                rep.billed),
        )
  ]
    where
      least_of :
          {a : ℕ} (front : List Entry) (e : Entry) (back : List Entry)
          → e0 ∷ es0 ≡ front ++ (e ∷ back)
          → a ≡ e.job.box
          → All (λ (d : Entry). (k.boxes a).vruntime ≤ d.vruntime) (e0 ∷ es0)
          → All (λ (d : Entry). e.vruntime ≤ d.vruntime) (front ++ (e ∷ back))
      least_of {a} front e back whole box h =
          let bill =
            All-leave (IsBilled k) front e back (subst (All (IsBilled k)) whole rep.billed) in
          let v : (k.boxes a).vruntime ≡ e.vruntime =
            ap (λ (b : ℕ). (k.boxes b).vruntime) box ∙ bill.0.0 in
          subst (λ (x : ℕ). All (λ (d : Entry). x ≤ d.vruntime) (front ++ (e ∷ back))) v
            (subst (All (λ (d : Entry). (k.boxes a).vruntime ≤ d.vruntime)) whole h)

  all_billed :
      (j : Job) (k k' : Kernel σ) (es : List Entry)
      → ((i : Job)
          → i.box ≢ j.box
          → i.step ≢ j.step
          → IsWaiting run_step left i k
          → IsSpared run_step left i k k')
      → All (IsApart j) (jobs es)
      → All (λ i. IsWaiting run_step left i k) (jobs es)
      → All (IsBilled k) es
      → All (IsBilled k') es
  all_billed j k k' [] spares apart waiting billed = tt
  all_billed j k k' (e ∷ es) spares apart waiting billed =
      let box = (spares e.job (λ q. apart.0.0 (sym q)) (λ q. apart.0.1 (sym q)) waiting.0).box in
      (
        (
          ap (λ (t : Task). t.vruntime) box ∙ billed.0.0,
          ap (λ (t : Task). slice t.weight) box ∙ billed.0.1,
        ),
        all_billed j k k' es spares apart.1 waiting.1 billed.1,
      )

  -- What stays when an entry of the queue leaves it.
  record IsLeft (front : List Entry) (e : Entry) (back : List Entry) (k : Kernel σ) : Type 0 where
    waits : IsWaiting run_step left e.job k
    bill : IsBilled k e
    others : All (λ i. IsWaiting run_step left i k) (jobs (front ++ back))
    bills : All (IsBilled k) (front ++ back)
    from_it : All (IsApart e.job) (jobs (front ++ back))
    apart : AreApart (jobs (front ++ back))

  leaves :
      (front : List Entry) (e : Entry) (back : List Entry) (es : List Entry) (s : Sched)
      (k : Kernel σ)
      → es ≡ front ++ (e ∷ back)
      → Represents es s k
      → IsLeft front e back k
  leaves front e back es s k whole rep =
      let (w, ws) =
        jobs_leave (λ i. IsWaiting run_step left i k) front e back
          (subst (λ (l : List Entry). All (λ i. IsWaiting run_step left i k) (jobs l)) whole
            rep.waiting) in
      let (b, bs) =
        All-leave (IsBilled k) front e back (subst (All (IsBilled k)) whole rep.billed) in
      let (a, as_) =
        AreApart-leave front e back
          (subst (λ (l : List Entry). AreApart (jobs l)) whole rep.apart) in
      record { waits = w; bill = b; others = ws; bills = bs; from_it = a; apart = as_ }

  log-push : (log : List Line) (line : Line) → push log line ≡ log ++ (line ∷ [])
  unfolding push
  log-push log line = refl

  -- The clock has room for one more charge.
  fits :
      (most : ℕ) (e : Entry)
      → IsCharged most e
      → saturating_add e.vruntime e.cost ≡ e.vruntime + e.cost
  fits most e c = ground (arith, charge_room most e c)

  leave_turn :
      (most : ℕ) (front : List Entry) (e : Entry) (back : List Entry) (s : Sched) (k : Kernel σ)
      → IsTame run_step left
      → IsLeft front e back k
      → IsCharged most e
      → (i : ℕ) → pick_min s k ≡ some i
      → get_elem? s.ready i ≡ some e.job.box
      → remove_at s.ready i ≡ boxes (front ++ back)
      → (s' : Sched) × (k' : Kernel σ) × (schedule_once run_step s k ≡ done (true, s', k'))
        × Represents (requeue (front ++ back) e) s' k'
        × (s'.finished_runs ≡ s.finished_runs ++ closing e)
  unfolding requeue closing
  leave_turn most front e back s k tame l c i found at removed =
      let j : Job = e.job in
      let w = l.waits in
      let (k2, step, kept) = turn-IsStep run_step left j k tame w in
      let k3 : Kernel σ = after run_step j.box (ltb 1 j.due) k2 in
      let k4 : Kernel σ = accrue j.box k3 in
      let spares : (i : Job)
          → i.box ≢ j.box
          → i.step ≢ j.step
          → IsWaiting run_step left i k
          → IsSpared run_step left i k k4 =
        λ o other apart wi.
          IsSpared-trans run_step left o k k3 k4
            (after-IsSpared run_step left j k tame w (ltb 1 j.due) k2 step kept o other apart)
            (accrue-IsSpared run_step left o j.box k3 other (
              ran-IsConsistent run_step left j k tame w (ltb 1 j.due) k2 step kept s i found at)) in
      let task = paying-task run_step left j k tame w (ltb 1 j.due) k2 step kept s i found at in
      elim (Bool-cases (j.due == 1)) [
        | inl last ↦
            let (k', turned, released) =
              charge_out run_step left j k tame w (ltb 1 j.due) k2 step kept s i found at
                (ground arith) in
            let frees : (o : Job)
                → o.box ≢ j.box
                → o.step ≢ j.step
                → IsWaiting run_step left o k
                → IsSpared run_step left o k k' =
              λ o other apart wi.
                freed-IsSpared run_step left j k tame w (ltb 1 j.due) k2 step kept o k4 k' other wi
                  (spares o other apart wi) (ap (λ (t : Task). t.slot) task) released in
            rw last (
              record s {
                ready = remove_at s.ready i;
                finished_runs = push s.finished_runs (j.id, j.name, j.ran + 1);
              },
              k',
              turned,
              record {
                queued = removed;
                waiting =
                    all_spared run_step left j k k' (jobs (front ++ back)) frees l.from_it l.others;
                billed = all_billed j k k' (front ++ back) frees l.from_it l.others l.bills;
                apart = l.apart;
                consistent = released.consistent;
              },
              log-push s.finished_runs (j.id, j.name, j.ran + 1),
            )
        | inr more ↦
            let stays : ltb 1 j.due ≡ true = ground (arith, w.some_due) in
            let own =
              own-IsWaiting run_step left j k tame w (ltb 1 j.due) k2 step kept stays
                (ground (arith, w.some_due)) in
            rw more (
              record s { ready = push (remove_at s.ready i) j.box },
              k4,
              charge_on run_step left j k tame w (ltb 1 j.due) k2 step kept s i found at stays,
              record {
                queued =
                    ap (λ (q : List ℕ). push q j.box) removed
                    ∙ sym (boxes-push (front ++ back) (charged e));
                waiting =
                    subst (All (λ o. IsWaiting run_step left o k4))
                      (sym (jobs-push (front ++ back) (charged e)))
                      (Jobs.All-push (λ o. IsWaiting run_step left o k4) (jobs (front ++ back))
                        (stepped j)
                        (all_spared run_step left j k k4 (jobs (front ++ back)) spares l.from_it
                          l.others)
                        (accrue-IsWaiting run_step left (stepped j) k3 own));
                billed =
                    All-push (IsBilled k4) (front ++ back) (charged e)
                      (all_billed j k k4 (front ++ back) spares l.from_it l.others l.bills)
                      (
                        ap (λ (t : Task). t.vruntime) task
                            ∙ ap (λ (v : ℕ). saturating_add v (slice (k.boxes j.box).weight))
                                l.bill.0
                            ∙ ap (λ (cost : ℕ). saturating_add e.vruntime cost) l.bill.1
                            ∙ fits most e c,
                        ap (λ (t : Task). slice t.weight) task ∙ l.bill.1,
                      );
                apart =
                    subst AreApart (sym (jobs-push (front ++ back) (charged e)))
                      (AreApart-push (jobs (front ++ back)) (stepped j) l.from_it l.apart);
                consistent =
                    paying-IsConsistent run_step left j k tame w (ltb 1 j.due) k2 step kept s i
                      found at;
              },
              sym (append-nil s.finished_runs),
            )
      ]

  -- On a queue of ready tasks, seated in distinct boxes with distinct closures that behave, and charged for all their
  -- steps, one call of `schedule_once` gives a step to a task of the least virtual runtime. It is charged its cost and
  -- goes to the back, or after its last step leaves its line in the ledger; the others keep their order.
  pub schedule_once-least :
      (most : ℕ) (e0 : Entry) (es0 : List Entry) (s : Sched) (k : Kernel σ)
      → IsTame run_step left
      → All (IsCharged most) (e0 ∷ es0)
      → Represents (e0 ∷ es0) s k
      → (front : List Entry) × (e : Entry) × (back : List Entry) × (e0 ∷ es0 ≡ front ++ (e ∷ back))
        × All (λ (d : Entry). e.vruntime ≤ d.vruntime) (front ++ (e ∷ back))
        × (s' : Sched) × (k' : Kernel σ) × (schedule_once run_step s k ≡ done (true, s', k'))
        × Represents (requeue (front ++ back) e) s' k'
        × (s'.finished_runs ≡ s.finished_runs ++ closing e)
  schedule_once-least most e0 es0 s k tame charges rep =
      let (i, front, e, back, whole, found, at, removed, least) = picked e0 es0 s k rep in
      let (s', k', ran, rep', log) =
        leave_turn most front e back s k tame (leaves front e back (e0 ∷ es0) s k whole rep)
          ((All-leave (IsCharged most) front e back (subst (All (IsCharged most)) whole charges)).0)
          i found at removed in
      (front, e, back, whole, least, s', k', ran, rep', log)
