-- ===== src/Memory/Buddy/Blocks.antt =====
-- The splitting of `take_block` and the merge of `deallocate_frame` keep every weight that splitting keeps.
use rusty_core.Prelude.{
  ℕ, zero, suc, ◌+◌, ◌*◌, ◌<◌, ◌≤◌, ◌≡◌, refl, sym, ap, ◌∙◌, List, Option, if◌then◌else◌, ltb, none,
  some, arith, update, Option-cases, inl, inr, min, bit_xor, ltb-false, lt→ltb, some_inj, subst,
  ◌/◌, ◌%◌, ◌⊎◌,
}
use rusty_core.Prelude.Vecs.{
  push, pop, position, swap_remove, sum_by-push, sum_by-pop, All-push, All-pop, All-swap_remove,
  sum_by-swap_remove, get_elem?-position,
}
use native.Mathlib.Decide.{dec_le}
use native.Mathlib.Numerals.{add-one}
use rusty_core.Prelude.Bits.{bit_xor-pow, neighbour}
use rusty_core.Memory.Buddy.{block_size, FreeLists, buddy_orders, buddy_max_order, merge}
use rusty_core.Memory.Buddy.Measure.{
  block_size-suc, IsBlock, AreBlocks, AreBlocks-update, IsBlock-halves, Splits, total, total-update,
}

-- The splitting of `take_block` over unbounded numbers: it neither overflows nor runs out of calls.
unfoldable pub split_block : ℕ → FreeLists → ℕ → Option (ℕ × FreeLists)
split_block zero lists order = none
split_block (suc fuel) lists order =
    if ltb buddy_max_order order then none else elim (pop (lists order)) [
      | some (addr, front) ↦ some (addr, update lists order front)
      | none ↦ elim (split_block fuel lists (order + 1)) [
        | none ↦ none
        | some (higher, lists') ↦
            some (higher, update lists' order (push (lists' order) (higher + block_size order)))
      ]
    ]

-- One call of `split_block`, by what the list of its order holds.
module _ (fuel : ℕ) (lists : FreeLists) (o : ℕ) (in_range : o ≤ buddy_max_order) where
  pub split_block-pop :
      {a : ℕ} {front : List ℕ}
      → pop (lists o) ≡ some (a, front)
      → split_block (suc fuel) lists o ≡ some (a, update lists o front)
  unfolding split_block
  split_block-pop e = rw (ltb-false buddy_max_order o in_range, e, split_block)

  pub split_block-none :
      pop (lists o) ≡ none
      → split_block fuel lists (o + 1) ≡ none
      → split_block (suc fuel) lists o ≡ none
  unfolding split_block
  split_block-none e r = rw (ltb-false buddy_max_order o in_range, e, split_block, r)

  pub split_block-halves :
      {a : ℕ} {lists' : FreeLists}
      → pop (lists o) ≡ none
      → split_block fuel lists (o + 1) ≡ some (a, lists')
      → split_block (suc fuel) lists o
        ≡ some (a, update lists' o (push (lists' o) (a + block_size o)))
  unfolding split_block
  split_block-halves e r = rw (ltb-false buddy_max_order o in_range, e, split_block, r)

pub split_block_above :
    (fuel : ℕ) (lists : FreeLists) (o : ℕ) → buddy_max_order < o → split_block fuel lists o ≡ none
unfolding split_block
split_block_above zero lists o h = refl
split_block_above (suc fuel) lists o h = rw (lt→ltb buddy_max_order o h)

-- What `split_block` has done when it returns a block.
pub record Taken (w : ℕ → ℕ → ℕ) (lists : FreeLists) (o a : ℕ) (lists' : FreeLists) : Type 0 where
  pub in_range : o ≤ buddy_max_order
  pub block : IsBlock o a
  pub blocks : AreBlocks lists'
  pub kept : total w buddy_orders lists ≡ total w buddy_orders lists' + w o a

module _ (w : ℕ → ℕ → ℕ) (splits : Splits w) where
  Taken-pop :
      (lists : FreeLists) (o : ℕ) {a : ℕ} {front : List ℕ}
      → AreBlocks lists
      → o ≤ buddy_max_order
      → pop (lists o) ≡ some (a, front)
      → Taken w lists o a (update lists o front)
  Taken-pop lists o {a} {front} h le e =
      let (rest, block) = All-pop (IsBlock o) (lists o) e (h o) in
      record {
        in_range = le;
        block = block;
        blocks = AreBlocks-update lists o front h rest;
        kept = omega (
          arith,
          total-update w lists o front buddy_orders (omega arith),
          sum_by-pop (w o) (lists o) e,
        );
      }

  Taken-split :
      (lists : FreeLists) (o : ℕ) {a : ℕ} {lists' : FreeLists}
      → o ≤ buddy_max_order
      → Taken w lists (suc o) a lists'
      → Taken w lists o a (update lists' o (push (lists' o) (a + block_size o)))
  Taken-split lists o {a} {lists'} le t =
      let (low, high) = IsBlock-halves o a t.block in
      let l = push (lists' o) (a + block_size o) in
      record {
        in_range = le;
        block = low;
        blocks =
            AreBlocks-update lists' o l t.blocks
              (All-push (IsBlock o) (lists' o) (a + block_size o) (t.blocks o) high);
        kept = omega (
          arith,
          t.kept,
          splits o a t.block,
          total-update w lists' o l buddy_orders (omega arith),
          sum_by-push (w o) (lists' o) (a + block_size o),
        );
      }

  pub split_block-Taken :
      (fuel : ℕ) (lists : FreeLists) (o : ℕ) {a : ℕ} {lists' : FreeLists}
      → AreBlocks lists
      → split_block fuel lists o ≡ some (a, lists')
      → Taken w lists o a lists'
  unfolding split_block
  split_block-Taken zero lists o h e = cc
  split_block-Taken (suc fuel) lists o {a} {lists'} h e = elim (dec_le o buddy_max_order) [
    | no above ↦ cc (split_block_above (suc fuel) lists o (omega arith))
    | yes le ↦ elim (Option-cases (pop (lists o))) [
      | inr ((b, front), p) ↦
          subst (λ r. Taken w lists o r.0 r.1)
            (some_inj (sym (split_block-pop fuel lists o le p) ∙ e)) (Taken-pop lists o h le p)
      | inl p ↦ elim (Option-cases (split_block fuel lists (o + 1))) [
        | inl q ↦ cc (split_block-none fuel lists o le p q)
        | inr ((b, upper), q) ↦
            subst (λ r. Taken w lists o r.0 r.1)
              (some_inj (sym (split_block-halves fuel lists o le p q) ∙ e))
              (Taken-split lists o le (
                subst (λ k. Taken w lists k b upper) (add-one o)
                  (split_block-Taken fuel lists (o + 1) h q)))
      ]
    ]
  ]

-- The merge: with a free buddy, and without.
module _ (left : ℕ) (lists : FreeLists) (a o : ℕ) where
  merge-found :
      {pos : ℕ}
      → position (bit_xor a (block_size o)) (lists o) ≡ some pos
      → merge (suc left) lists a o
        ≡ merge left
            (update lists o (swap_remove (lists o) pos))
            (min a (bit_xor a (block_size o)))
            (o + 1)
  unfolding merge
  merge-found e = rw (e, merge)

  merge-alone :
      position (bit_xor a (block_size o)) (lists o) ≡ none
      → merge (suc left) lists a o ≡ update lists o (push (lists o) a)
  unfolding merge
  merge-alone e = rw (e, merge)

-- The buddy of a block, `addr ^ (1 << (order + 12))`, is the neighbouring block.
buddy-neighbour : (o m : ℕ) → bit_xor (m * block_size o) (block_size o) ≡ neighbour m * block_size o
unfolding block_size
buddy-neighbour o m = bit_xor-pow (o + 12) m

-- Block `a` of order `o` and its buddy `b` are the two halves of a block.
record AreHalves (o a b : ℕ) : Type 0 where
  whole : IsBlock (suc o) (min a b)
  order :
      ((a ≡ min a b) × (b ≡ min a b + block_size o))
      ⊎ ((b ≡ min a b) × (a ≡ min a b + block_size o))

buddy_halves : (o a : ℕ) → IsBlock o a → AreHalves o a (bit_xor a (block_size o))
buddy_halves o a (m, e) = go (m / 2) (m % 2) (omega arith) (omega arith)
  where
    at : bit_xor a (block_size o) ≡ neighbour m * block_size o
    at = ap (λ (t : ℕ). bit_xor t (block_size o)) e ∙ buddy-neighbour o m

    go : (k r : ℕ) → m ≡ 2 * k + r → r < 2 → AreHalves o a (bit_xor a (block_size o))
    go k zero split h =
        let next : neighbour m ≡ 2 * k + 1 = omega arith in
        let here = ap (λ (t : ℕ). t * block_size o) split in
        let there = ap (λ (t : ℕ). t * block_size o) next in
        let doubled = ap (λ (t : ℕ). k * t) (block_size-suc o) in
        record {
          whole = (k, omega (arith, e, at, here, there, doubled));
          order = inl (omega (arith, e, at, here, there, doubled));
        }
    go k (suc zero) split h =
        let next : neighbour m ≡ 2 * k = omega arith in
        let here = ap (λ (t : ℕ). t * block_size o) split in
        let there = ap (λ (t : ℕ). t * block_size o) next in
        let doubled = ap (λ (t : ℕ). k * t) (block_size-suc o) in
        record {
          whole = (k, omega (arith, e, at, here, there, doubled));
          order = inr (omega (arith, e, at, here, there, doubled));
        }
    go k (suc (suc r)) split h = absurd (omega arith)

-- What the merge of block `a` into the lists has done.
pub record Merged (w : ℕ → ℕ → ℕ) (lists : FreeLists) (o a : ℕ) (lists' : FreeLists) : Type 0 where
  pub blocks : AreBlocks lists'
  pub kept : total w buddy_orders lists' ≡ total w buddy_orders lists + w o a

module _ (w : ℕ → ℕ → ℕ) (splits : Splits w) where
  halves_weight : (o a b : ℕ) → AreHalves o a b → w o a + w o b ≡ w (suc o) (min a b)
  halves_weight o a b h = go h.order
    where
      low : ℕ
      low = min a b

      high : ℕ
      high = min a b + block_size o

      go : ((a ≡ low) × (b ≡ high)) ⊎ ((b ≡ low) × (a ≡ high)) → w o a + w o b ≡ w (suc o) low
      go (inl (p, q)) = omega (arith, ap (w o) p, ap (w o) q, splits o low h.whole)
      go (inr (p, q)) = omega (arith, ap (w o) p, ap (w o) q, splits o low h.whole)

  Merged-alone :
      (lists : FreeLists) (o a : ℕ)
      → o ≤ buddy_max_order
      → AreBlocks lists
      → IsBlock o a
      → Merged w lists o a (update lists o (push (lists o) a))
  Merged-alone lists o a le h block = record {
    blocks =
        AreBlocks-update lists o (push (lists o) a) h
          (All-push (IsBlock o) (lists o) a (h o) block);
    kept = omega (
      arith,
      total-update w lists o (push (lists o) a) buddy_orders (omega arith),
      sum_by-push (w o) (lists o) a,
    );
  }

  pub merge-Merged :
      (left : ℕ) (lists : FreeLists) (a o : ℕ)
      → o + left ≡ buddy_max_order
      → AreBlocks lists
      → IsBlock o a
      → Merged w lists o a (merge left lists a o)
  unfolding merge
  merge-Merged zero lists a o top h block = Merged-alone lists o a (omega arith) h block
  merge-Merged (suc left) lists a o top h block =
      let b = bit_xor a (block_size o) in
      elim (Option-cases (position b (lists o))) [
        | inl e ↦ rw (merge-alone left lists a o e) (Merged-alone lists o a (omega arith) h block)
        | inr (pos, e) ↦
            let shorter = swap_remove (lists o) pos in
            let lists' = update lists o shorter in
            let halves = buddy_halves o a block in
            let upper =
              merge-Merged left lists' (min a b) (o + 1) (omega arith)
                (AreBlocks-update lists o shorter h
                  (All-swap_remove (IsBlock o) (lists o) pos (h o)))
                (subst (λ k. IsBlock k (min a b)) (sym (add-one o)) halves.whole) in
            rw (merge-found left lists a o e) (record {
              blocks = upper.blocks;
              kept = omega (
                arith,
                upper.kept,
                ap (λ k. w k (min a b)) (add-one o),
                halves_weight o a b halves,
                total-update w lists o shorter buddy_orders (omega arith),
                sum_by-swap_remove (w o) (lists o) pos (get_elem?-position b (lists o) pos e),
              );
            })
      ]
