-- ===== src/Prelude/Vecs.antt =====
-- `Vec<u64>` of the source: its elements in index order. `push` and `pop` work at the back, and
-- `swap_remove` fills the hole with the last element.
use Prim.Native.Nat.{ℕ, zero, suc, ◌+◌, ◌≤◌}
use mathlib.Core.Path.{◌≡◌, refl, sym, ap, subst, ◌∙◌}
use mathlib.Core.List.{List, [], ◌∷◌, ◌++◌}
use mathlib.Core.Option.{Option, none, some}
use mathlib.Core.Option
use mathlib.Core.Logic.{inl, inr}
use native.Mathlib.Omega.{arith}
use rusty_core.Prelude.Tests.{if◌then◌else◌, ◌==◌, Option-cases, some_inj}
use rusty_core.Prelude.Lists.{get_elem?, set}

module _ {ℓ} {A : Type ℓ} where
  unfoldable pub push : List A → A → List A
  push xs a = xs ++ (a ∷ [])

  unfoldable pub pop : List A → Option (A × List A)
  pop [] = none
  pop (x ∷ xs) = elim (pop xs) [ none ↦ some (x, []) | some (last, front) ↦ some (last, x ∷ front) ]

  -- `v.swap_remove(i)` at an index inside; at the last index `set` finds no element to replace.
  unfoldable pub swap_remove : List A → ℕ → List A
  swap_remove xs i = elim (pop xs) [ none ↦ [] | some (last, front) ↦ set front i last ]

  pop_total : (x : A) (xs : List A) → (r : A × List A) × (pop (x ∷ xs) ≡ some r)
  unfolding pop
  pop_total x xs = elim (Option-cases (pop xs)) [
    | inl e ↦ ((x, []), rw (e, pop))
    | inr ((last, front), e) ↦ ((last, x ∷ front), rw (e, pop))
  ]

  pop-cons :
      (x : A) (xs : List A) {last : A} {front : List A}
      → pop xs ≡ some (last, front)
      → pop (x ∷ xs) ≡ some (last, x ∷ front)
  unfolding pop
  pop-cons x xs e = rw (e, pop)

  -- `pop` takes off what was pushed last.
  pub pop_inverse :
      (xs : List A) {a : A} {front : List A} → pop xs ≡ some (a, front) → xs ≡ push front a
  unfolding pop push
  pop_inverse [] e = cc
  pop_inverse (x ∷ []) e = cc
  pop_inverse (x ∷ y ∷ ys) e =
      let ((last, front), found) = pop_total y ys in
      cc (pop_inverse (y ∷ ys) found, pop-cons x (y ∷ ys) found)

  pub pop-none : (xs : List A) → pop xs ≡ none → xs ≡ []
  pop-none [] e = refl
  pop-none (x ∷ xs) e = let (r, found) = pop_total x xs in cc

-- `v.iter().position(|&a| a == b)`.
unfoldable pub position : ℕ → List ℕ → Option ℕ
position b [] = none
position b (x ∷ xs) = if x == b then some 0 else Option.map suc (position b xs)

-- The sum of a weight over a vector.
unfoldable pub sum_by : (ℕ → ℕ) → List ℕ → ℕ
sum_by w [] = 0
sum_by w (x ∷ xs) = w x + sum_by w xs

module _ (w : ℕ → ℕ) where
  pub sum_by-push : (xs : List ℕ) (a : ℕ) → sum_by w (push xs a) ≡ sum_by w xs + w a
  unfolding push sum_by
  sum_by-push [] a = omega arith
  sum_by-push (x ∷ xs) a = omega (arith, sum_by-push xs a)

  pub sum_by-pop :
      (xs : List ℕ) {a : ℕ} {front : List ℕ}
      → pop xs ≡ some (a, front)
      → sum_by w xs ≡ sum_by w front + w a
  sum_by-pop xs {a} {front} e = ap (sum_by w) (pop_inverse xs e) ∙ sum_by-push front a

  sum_by-set :
      (xs : List ℕ) (i : ℕ) {b : ℕ} (a : ℕ)
      → get_elem? xs i ≡ some b
      → sum_by w (set xs i a) + w b ≡ sum_by w xs + w a
  unfolding sum_by
  sum_by-set [] i a e = cc
  sum_by-set (x ∷ xs) zero a e = ground arith
  sum_by-set (x ∷ xs) (suc i) a e = omega (arith, sum_by-set xs i a e)

  -- The hole at `i` of `push front last` filled by `last`.
  sum_by-fill :
      (front : List ℕ) (last i : ℕ) {b : ℕ}
      → get_elem? (push front last) i ≡ some b
      → sum_by w (set front i last) + w b ≡ sum_by w front + w last
  unfolding push sum_by
  sum_by-fill [] last zero e = ground arith
  sum_by-fill [] last (suc i) e = cc
  sum_by-fill (x ∷ xs) last zero e = ground arith
  sum_by-fill (x ∷ xs) last (suc i) e = omega (arith, sum_by-fill xs last i e)

  pub sum_by-swap_remove :
      (xs : List ℕ) (i : ℕ) {b : ℕ}
      → get_elem? xs i ≡ some b
      → sum_by w (swap_remove xs i) + w b ≡ sum_by w xs
  unfolding swap_remove
  sum_by-swap_remove [] i e = cc
  sum_by-swap_remove (x ∷ xs) i {b} e =
      let ((last, front), found) = pop_total x xs in
      let whole = pop_inverse (x ∷ xs) found in
      rw (found, swap_remove)
        (sum_by-fill front last i (sym (ap (λ (l : List ℕ). get_elem? l i) whole) ∙ e)
          ∙ sym (sum_by-pop (x ∷ xs) found))

pub get_elem?-position :
    (b : ℕ) (xs : List ℕ) (i : ℕ) → position b xs ≡ some i → get_elem? xs i ≡ some b
unfolding position
get_elem?-position b [] i e = cc
get_elem?-position b (x ∷ xs) zero e = ground arith
get_elem?-position b (x ∷ xs) (suc i) e = ground (arith, get_elem?-position b xs i)

-- A property of every element.
abbrev pub All {ℓ κ} : {A : Type ℓ} → (A → Type κ) → List A → Type κ
All P [] = Unit
All P (x ∷ xs) = P x × All P xs

module _ (P : ℕ → Type 0) where
  pub All-push : (xs : List ℕ) (a : ℕ) → All P xs → P a → All P (push xs a)
  unfolding push
  All-push [] a h p = (p, tt)
  All-push (x ∷ xs) a h p = (h.0, All-push xs a h.1 p)

  All-of_push : (xs : List ℕ) (a : ℕ) → All P (push xs a) → All P xs × P a
  unfolding push
  All-of_push [] a h = (tt, h.0)
  All-of_push (x ∷ xs) a h = let (t, p) = All-of_push xs a h.1 in ((h.0, t), p)

  pub All-pop :
      (xs : List ℕ) {a : ℕ} {front : List ℕ}
      → pop xs ≡ some (a, front)
      → All P xs
      → All P front × P a
  All-pop xs {a} {front} e h = All-of_push front a (subst (All P) (pop_inverse xs e) h)

  All-set : (xs : List ℕ) (i a : ℕ) → All P xs → P a → All P (set xs i a)
  All-set [] i a h p = h
  All-set (x ∷ xs) zero a h p = (p, h.1)
  All-set (x ∷ xs) (suc i) a h p = (h.0, All-set xs i a h.1 p)

  pub All-swap_remove : (xs : List ℕ) (i : ℕ) → All P xs → All P (swap_remove xs i)
  unfolding swap_remove pop
  All-swap_remove [] i h = tt
  All-swap_remove (x ∷ xs) i h =
      let ((last, front), found) = pop_total x xs in
      let (hf, hl) = All-pop (x ∷ xs) found h in
      rw (found, swap_remove) (All-set front i last hf hl)

pub All-get {ℓ} :
    {A : Type ℓ} (P : A → Type 0) (xs : List A) (i : ℕ) {a : A}
    → All P xs
    → get_elem? xs i ≡ some a
    → P a
All-get P [] i h e = cc
All-get P (x ∷ xs) zero h e = subst P (some_inj e) h.0
All-get P (x ∷ xs) (suc i) h e = All-get P xs i h.1 e

pub le-sum_by :
    (w : ℕ → ℕ) (xs : List ℕ) (i : ℕ) {a : ℕ} → get_elem? xs i ≡ some a → w a ≤ sum_by w xs
unfolding sum_by
le-sum_by w [] i e = cc
le-sum_by w (x ∷ xs) zero e = ground arith
le-sum_by w (x ∷ xs) (suc i) e = omega (arith, le-sum_by w xs i e)
