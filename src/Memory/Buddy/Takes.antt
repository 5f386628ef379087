-- ===== src/Memory/Buddy/Takes.antt =====
-- Below the physical limit `take_block` is the plain splitting: no sum overflows, and its calls are enough.
use rusty_core.Prelude.{
  ℕ, zero, suc, ◌+◌, ◌*◌, ◌<◌, ◌≤◌, ◌≡◌, refl, ap, ◌∙◌, some, arith, Option-cases, inl, inr, done,
  ◌>>=◌, lt→ltb, ltb-false, u64_mod,
}
use native.Mathlib.Decide.{dec_le}
use native.Mathlib.Numerals.{add-one}
use rusty_core.Prelude.Vecs.{pop}
use rusty_core.Memory.Regions.{phys_limit}
use rusty_core.Memory.Buddy.{FreeLists, block_size, buddy_orders, buddy_max_order, take_block}
use rusty_core.Memory.Buddy.Measure.{AreBlocks, block_size-suc, block_size-pos}
use rusty_core.Memory.Buddy.Blocks.{
  split_block, split_block-pop, split_block-none, split_block-halves, split_block_above,
  split_block-Taken,
}
use rusty_core.Memory.Buddy.Weights.{covers, covers-Splits, coverage, within}

-- No free block reaches past the physical addresses.
abbrev pub AreLow : FreeLists → Type 0
AreLow lists = (x : ℕ) → 0 < coverage lists x → x < phys_limit

-- The upper half of a block that a split has taken lies below the limit.
upper-low :
    (fuel : ℕ) (lists : FreeLists) (o : ℕ) {a : ℕ} {lists' : FreeLists}
    → AreBlocks lists
    → AreLow lists
    → split_block fuel lists (o + 1) ≡ some (a, lists')
    → a + block_size o < phys_limit
upper-low fuel lists o {a} {lists'} blocks low e =
    let x : ℕ = a + block_size o in
    let t = split_block-Taken (covers x) (covers-Splits x) fuel lists (o + 1) blocks e in
    let doubled : block_size (o + 1) ≡ 2 * block_size o =
      ap block_size (add-one o) ∙ block_size-suc o in
    let inside : within a (a + block_size (o + 1)) x ≡ 1 =
      ground (arith, doubled, block_size-pos o) in
    low x (omega (arith, t.kept, inside))

pub take_block-split :
    (fuel : ℕ) (lists : FreeLists) (o : ℕ)
    → buddy_orders < fuel + o
    → o ≤ buddy_orders
    → AreBlocks lists
    → AreLow lists
    → take_block fuel lists o ≡ done (split_block fuel lists o)
unfolding take_block
take_block-split zero lists o enough le blocks low = absurd (omega arith)
take_block-split (suc fuel) lists o enough in_reach blocks low = elim (dec_le o buddy_max_order) [
  | no above ↦
      rw
        (lt→ltb buddy_max_order o (omega arith), split_block_above (suc fuel) lists o (omega arith))
        refl
  | yes le ↦ elim (Option-cases (pop (lists o))) [
    | inr ((b, front), p) ↦
        rw (ltb-false buddy_max_order o le, p, split_block-pop fuel lists o le p) refl
    | inl p ↦
        let rest = take_block-split fuel lists (o + 1) (omega arith) (omega arith) blocks low in
        elim (Option-cases (split_block fuel lists (o + 1))) [
          | inl q ↦
              rw
                (
                  ltb-false buddy_max_order o le,
                  p,
                  rest,
                  q,
                  ◌>>=◌,
                  split_block-none fuel lists o le p q,
                )
                refl
          | inr ((b, upper), q) ↦
              rw
                (
                  ltb-false buddy_max_order o le,
                  p,
                  rest,
                  q,
                  ◌>>=◌,
                  split_block-halves fuel lists o le p q,
                )
                (rw
                  (lt→ltb (b + block_size o) u64_mod
                    (omega (arith, upper-low fuel lists o blocks low q)))
                  refl)
        ]
  ]
]
