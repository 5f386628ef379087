-- ===== src/Task/Cfs/Pick.antt =====
-- `pick_min` finds the awake task with the least virtual runtime.
use rusty_core.Prelude.{
  ℕ, suc, ◌+◌, ◌≤◌, ◌≡◌, ◌⊎◌, inl, inr, refl, ap, ◌∙◌, true, false, Bool-cases, Option, none, some,
  List, [], ◌∷◌, ltb, get_elem?, arith, subst,
}
use rusty_core.Prelude.Vecs.{All}
use rusty_core.Task.Run.{Kernel, Sched, parked}
use rusty_core.Task.Cfs.{scan, pick_min}

-- What the scan has found is at most `x`.
abbrev AtMost : Option (ℕ × ℕ) → ℕ → Type 0
AtMost none x = ⊥
AtMost (some (i, v)) x = v ≤ x

AtMost-trans : (r : Option (ℕ × ℕ)) (x y : ℕ) → AtMost r x → x ≤ y → AtMost r y
AtMost-trans none x y h le = h
AtMost-trans (some (i, v)) x y h le = omega arith

module _ {σ : Type 0} (k : Kernel σ) where
  abbrev vruntime_of : ℕ → ℕ
  vruntime_of a = (k.boxes a).vruntime

  -- The result `r` of a scan of `l` from index `i` on, with `best` found before.
  record IsLeast (l : List ℕ) (i : ℕ) (best r : Option (ℕ × ℕ)) : Type 0 where
    below : All (λ b. parked b k ≡ false → AtMost r (vruntime_of b)) l
    before : (x : ℕ) → AtMost best x → AtMost r x
    origin :
        (r ≡ best)
        ⊎ ((j : ℕ) × (a : ℕ) × (get_elem? l j ≡ some a)
            × (parked a k ≡ false)
            × (r ≡ some (i + j, vruntime_of a)))

  -- The head of the list is passed over: it sleeps, or it does not beat the best so far.
  keep :
      (a : ℕ) (l : List ℕ) (i : ℕ) (best r : Option (ℕ × ℕ))
      → (parked a k ≡ false → AtMost best (vruntime_of a))
      → IsLeast l (suc i) best r
      → IsLeast (a ∷ l) i best r
  keep a l i best r head rest = record {
    below = (λ awake. rest.before (vruntime_of a) (head awake), rest.below);
    before = rest.before;
    origin = elim rest.origin [
      | inl e ↦ inl e
      | inr (j, b, at, awake, e) ↦
          inr (suc j, b, at, awake, e ∙ ap (λ (n : ℕ). some (n, vruntime_of b)) (omega arith))
    ];
  }

  -- The head is the best so far.
  take :
      (a : ℕ) (l : List ℕ) (i : ℕ) (best r : Option (ℕ × ℕ))
      → parked a k ≡ false
      → ((x : ℕ) → AtMost best x → vruntime_of a ≤ x)
      → IsLeast l (suc i) (some (i, vruntime_of a)) r
      → IsLeast (a ∷ l) i best r
  take a l i best r awake beats rest = record {
    below = (λ _. rest.before (vruntime_of a) (omega arith), rest.below);
    before = λ x h. rest.before x (beats x h);
    origin = elim rest.origin [
      | inl e ↦ inr (0, a, refl, awake, e ∙ ap (λ (n : ℕ). some (n, vruntime_of a)) (omega arith))
      | inr (j, b, at, up, e) ↦
          inr (suc j, b, at, up, e ∙ ap (λ (n : ℕ). some (n, vruntime_of b)) (omega arith))
    ];
  }

  scan-IsLeast : (l : List ℕ) (i : ℕ) (best : Option (ℕ × ℕ)) → IsLeast l i best (scan l i best k)
  unfolding scan
  scan-IsLeast [] i best = record { below = tt; before = λ x h. h; origin = inl refl }
  scan-IsLeast (a ∷ l) i none = elim (Bool-cases (parked a k)) [
    | inl e ↦ rw (e, scan) (keep a l i none _ (λ awake. absurd (cc)) (scan-IsLeast l (suc i) none))
    | inr e ↦
        rw (e, scan)
          (take a l i none _ e (λ x h. absurd h) (scan-IsLeast l (suc i) (some (i, vruntime_of a))))
  ]
  scan-IsLeast (a ∷ l) i (some (j, v)) = elim (Bool-cases (parked a k)) [
    | inl e ↦
        rw (e, scan)
          (keep a l i (some (j, v)) _ (λ awake. absurd (cc)) (scan-IsLeast l (suc i) (some (j, v))))
    | inr e ↦ elim (Bool-cases (ltb (vruntime_of a) v)) [
      | inl lt ↦
          rw (e, lt, scan)
            (take a l i (some (j, v)) _ e (λ x h. ground arith)
              (scan-IsLeast l (suc i) (some (i, vruntime_of a))))
      | inr ge ↦
          rw (e, ge, scan)
            (keep a l i (some (j, v)) _ (λ _. ground arith) (scan-IsLeast l (suc i) (some (j, v))))
    ]
  ]

  all_parked : (l : List ℕ) → All (λ b. parked b k ≡ false → ⊥) l → All (λ b. parked b k ≡ true) l
  all_parked [] h = tt
  all_parked (b ∷ l) h =
      (elim (Bool-cases (parked b k)) [ inl e ↦ e | inr e ↦ absurd (h.0 e) ], all_parked l h.1)

  -- `pick_min` returns nothing only when every queued task sleeps; otherwise it returns the index of an
  -- awake task, and no awake task has a smaller virtual runtime.
  pub pick_min-least :
      (s : Sched)
      → ((pick_min s k ≡ none) × All (λ b. parked b k ≡ true) s.ready)
        ⊎ ((i : ℕ) × (a : ℕ) × (pick_min s k ≡ some i)
            × (get_elem? s.ready i ≡ some a)
            × (parked a k ≡ false)
            × All (λ b. parked b k ≡ false → (k.boxes a).vruntime ≤ (k.boxes b).vruntime) s.ready)
  unfolding pick_min
  pick_min-least s =
      let least = scan-IsLeast s.ready 0 none in
      elim least.origin [
        | inl e ↦ inl (
          rw (e, pick_min),
          all_parked s.ready (
              subst (λ r. All (λ b. parked b k ≡ false → AtMost r (vruntime_of b)) s.ready) e
                least.below),
        )
        | inr (j, a, at, awake, e) ↦ inr (
          j,
          a,
          rw (e, pick_min) (ap some (omega arith)),
          at,
          awake,
          subst (λ r. All (λ b. parked b k ≡ false → AtMost r (vruntime_of b)) s.ready) e
              least.below,
        )
      ]
