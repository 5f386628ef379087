-- ===== src/Memory/Buddy/Empty.antt =====
-- A split fails only where no block is free.
use rusty_core.Prelude.{
  ℕ, zero, suc, ◌+◌, ◌<◌, ◌≤◌, ◌≡◌, refl, ap, subst, [], none, arith, Option-cases, inl, inr,
}
use rusty_core.Prelude.Vecs.{sum_by, pop, pop-none}
use native.Mathlib.Decide.{ℕ_discrete}
use rusty_core.Memory.Buddy.{FreeLists, buddy_orders, buddy_max_order}
use rusty_core.Memory.Buddy.Measure.{total}
use rusty_core.Memory.Buddy.Blocks.{split_block, split_block-pop, split_block-halves}

total-empty :
    (w : ℕ → ℕ → ℕ) (k : ℕ) (lists : FreeLists)
    → ((o : ℕ) → o < k → lists o ≡ [])
    → total w k lists ≡ 0
unfolding total sum_by
total-empty w zero lists h = refl
total-empty w (suc k) lists h = omega (
  arith,
  total-empty w k lists (λ o lt. h o (omega arith)),
  ap (sum_by (w k)) (h k (omega arith)),
)

split_block_fails :
    (fuel : ℕ) (lists : FreeLists) (o : ℕ)
    → buddy_orders < fuel + o
    → split_block fuel lists o ≡ none
    → (j : ℕ) → o ≤ j
    → j ≤ buddy_max_order
    → lists j ≡ []
split_block_fails zero lists o enough e j lo hi = absurd (omega arith)
split_block_fails (suc fuel) lists o enough e j lo hi = elim (Option-cases (pop (lists o))) [
  | inr ((b, front), p) ↦ cc (split_block-pop fuel lists o (omega arith) p)
  | inl p ↦ elim (Option-cases (split_block fuel lists (o + 1))) [
    | inr ((b, upper), q) ↦ cc (split_block-halves fuel lists o (omega arith) p q)
    | inl q ↦ elim (ℕ_discrete o j) [
      | yes same ↦ subst (λ k. lists k ≡ []) same (pop-none (lists o) p)
      | no other ↦ split_block_fails fuel lists (o + 1) (omega arith) q j (omega arith) hi
    ]
  ]
]

-- With every order in reach a failure means that the lists weigh nothing.
pub split_block-none-total :
    (w : ℕ → ℕ → ℕ) (lists : FreeLists)
    → split_block (buddy_orders + 1) lists 0 ≡ none
    → total w buddy_orders lists ≡ 0
split_block-none-total w lists e = total-empty w buddy_orders lists (λ o lt.
    split_block_fails (buddy_orders + 1) lists 0 (omega arith) e o (omega arith) (omega arith))
