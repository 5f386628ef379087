-- ===== src/Memory/Buddy/Measure.antt =====
-- Weights of blocks that splitting keeps, and their total over the free lists. Two of them serve:
-- the number of frames, and whether a block covers a given address.
use rusty_core.Prelude.{
  ℕ, zero, suc, ◌+◌, ◌*◌, ◌^◌, ◌<◌, ◌≤◌, ◌≡◌, refl, ap, ◌∙◌, List, arith, update, ◌==◌, ==_iff,
  Bool-cases, inl, inr, subst,
}
use rusty_core.Prelude.Vecs.{sum_by, All}
use native.Mathlib.Nat.{pow-suc, one-le-pow, mul_comm}
use rusty_core.Memory.Buddy.{block_size, FreeLists}

pub block_size-suc : (o : ℕ) → block_size (suc o) ≡ 2 * block_size o
unfolding block_size
block_size-suc o =
    ap (λ (n : ℕ). 2 ^ n) (add-shift o) ∙ pow-suc 2 (o + 12) ∙ mul_comm (2 ^ (o + 12)) 2
  where
    add-shift : (n : ℕ) → suc n + 12 ≡ suc (n + 12)
    add-shift n = omega arith

pub block_size-pos : (o : ℕ) → 0 < block_size o
unfolding block_size
block_size-pos o = one-le-pow (o + 12) 2 (omega arith)

-- The address starts a block of the order.
abbrev pub IsBlock : ℕ → ℕ → Type 0
IsBlock o a = (m : ℕ) × (a ≡ m * block_size o)

abbrev pub AreBlocks : FreeLists → Type 0
AreBlocks lists = (o : ℕ) → All (IsBlock o) (lists o)

-- The weight of a block is that of its two halves.
abbrev pub Splits : (ℕ → ℕ → ℕ) → Type 0
Splits w = (o a : ℕ) → IsBlock (suc o) a → w (suc o) a ≡ w o a + w o (a + block_size o)

-- The weight of the free blocks of the orders below `k`.
unfoldable pub total : (ℕ → ℕ → ℕ) → ℕ → FreeLists → ℕ
total w zero lists = 0
total w (suc k) lists = total w k lists + sum_by (w k) (lists k)

module _ (w : ℕ → ℕ → ℕ) (lists : FreeLists) (o : ℕ) (l : List ℕ) where
  total-update_above : (k : ℕ) → k ≤ o → total w k (update lists o l) ≡ total w k lists
  unfolding total
  total-update_above zero h = refl
  total-update_above (suc k) h = ground (arith, total-update_above k)

  pub total-update :
      (k : ℕ)
      → o < k
      → total w k (update lists o l) + sum_by (w o) (lists o) ≡ total w k lists + sum_by (w o) l
  unfolding total
  total-update zero h = absurd (omega arith)
  total-update (suc k) h = ground (arith, total-update k, total-update_above k)

pub AreBlocks-update :
    (lists : FreeLists) (o : ℕ) (l : List ℕ)
    → AreBlocks lists
    → All (IsBlock o) l
    → AreBlocks (update lists o l)
AreBlocks-update lists o l h hl j = elim (Bool-cases (o == j)) [
  | inl e ↦ rw e (subst (λ k. All (IsBlock k) l) ((==_iff o j).0 e) hl)
  | inr e ↦ rw e (h j)
]

-- The two halves of a block of the next order.
pub IsBlock-halves : (o a : ℕ) → IsBlock (suc o) a → IsBlock o a × IsBlock o (a + block_size o)
IsBlock-halves o a (m, e) =
    let doubled = ap (λ (t : ℕ). m * t) (block_size-suc o) in
    ((2 * m, omega (arith, doubled)), (2 * m + 1, omega (arith, doubled)))
