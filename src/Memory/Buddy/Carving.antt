-- ===== src/Memory/Buddy/Carving.antt =====
-- The loop of `activate` over one region: it ends, and lists each address of the range once more.
use rusty_core.Prelude.{
  ℕ, zero, suc, ◌+◌, ◌-◌, ◌*◌, ◌/◌, ◌%◌, ◌<◌, ◌≤◌, ◌≡◌, ap, ◌∙◌, arith, leb, ◌==◌, ◌&&◌, Bool-cases,
  inl, inr, update, done, u64_mod,
}
use rusty_core.Prelude.Vecs.{push, sum_by-push, All-push}
use native.Mathlib.Nat.{div-add-mod'}
use native.Mathlib.Decide.{dec_le}
use rusty_core.Memory.Regions.{phys_limit, frame_size}
use rusty_core.Memory.Buddy.{
  FreeLists, block_size, buddy_orders, buddy_max_order, pick_order, carve,
}
use rusty_core.Memory.Buddy.Measure.{
  IsBlock, AreBlocks, AreBlocks-update, block_size-suc, total-update,
}
use rusty_core.Memory.Buddy.Weights.{covers, within, coverage, block_size-zero}

block_size-aligned : (o : ℕ) → (block_size o % frame_size ≡ 0) × (frame_size ≤ block_size o)
block_size-aligned zero = omega (arith, block_size-zero)
block_size-aligned (suc o) = omega (arith, block_size-suc o, block_size-aligned o)

-- The picked block starts at `start`, fits into what remains, and is of a kept order.
record Picked (remaining start o : ℕ) : Type 0 where
  fits : block_size o ≤ remaining
  block : IsBlock o start
  kept : o ≤ buddy_max_order

module _ (remaining start : ℕ) (room : frame_size ≤ remaining) (al : start % frame_size ≡ 0) where
  pick_order-Picked :
      (o : ℕ) → o ≤ buddy_max_order → Picked remaining start (pick_order remaining start o)
  unfolding pick_order
  pick_order-Picked zero le = record {
    fits = omega (arith, block_size-zero);
    block = (start / 4096, omega (arith, ap (λ (t : ℕ). start / 4096 * t) block_size-zero));
    kept = omega arith;
  }
  pick_order-Picked (suc o) le =
      elim (Bool-cases (leb (block_size (suc o)) remaining && (start % block_size (suc o) == 0))) [
        | inl t ↦
            rw (t, pick_order)
              (record {
                fits = ground arith;
                block = (
                  start / block_size (suc o),
                  grind (arith, div-add-mod' start (block_size (suc o))),
                );
                kept = le;
              })
        | inr f ↦ rw (f, pick_order) (pick_order-Picked o (omega arith))
      ]

-- The listing of a range `[start, end)` by the loop.
pub record Carved (start end : ℕ) (lists lists' : FreeLists) : Type 0 where
  pub blocks : AreBlocks lists'
  pub listed : (x : ℕ) → coverage lists' x ≡ coverage lists x + within start end x

Carved-more :
    (start end o : ℕ) (lists lists' : FreeLists)
    → Picked (end - start) start o
    → start ≤ end
    → AreBlocks lists
    → Carved (start + block_size o) end (update lists o (push (lists o) start)) lists'
    → Carved start end lists lists'
Carved-more start end o lists lists' p le h c = record {
  blocks = c.blocks;
  listed = λ x.
      let split : within start end x
          ≡ within start (start + block_size o) x + within (start + block_size o) end x =
        ground (arith, p.fits) in
      omega (
        arith,
        c.listed x,
        split,
        total-update (covers x) lists o (push (lists o) start) buddy_orders (omega (arith, p.kept)),
        sum_by-push (covers x o) (lists o) start,
      );
}

-- One round of the loop.
module _ (fuel start end : ℕ) (lists : FreeLists) where
  carve-end :
      start + frame_size < u64_mod
      → end < start + frame_size
      → carve (suc fuel) start end lists ≡ done lists
  unfolding carve
  carve-end small over = ground arith

  carve-more :
      let o = pick_order (end - start) start buddy_max_order in
      start + frame_size < u64_mod
      → start + frame_size ≤ end
      → start + block_size o < u64_mod
      → carve (suc fuel) start end lists
        ≡ carve fuel (start + block_size o) end (update lists o (push (lists o) start))
  unfolding carve
  carve-more small room fits = ground arith

pub carve-Carved :
    (fuel start end : ℕ) (lists : FreeLists)
    → start % frame_size ≡ 0
    → end % frame_size ≡ 0
    → start ≤ 2 * phys_limit
    → end ≤ phys_limit
    → 0 < fuel
    → end < start + fuel * frame_size
    → AreBlocks lists
    → (lists' : FreeLists) × (carve fuel start end lists ≡ done lists')
      × Carved start end lists lists'
carve-Carved zero start end lists sal eal ls le pos enough h = absurd (omega arith)
carve-Carved (suc fuel) start end lists sal eal ls le pos enough h =
    elim (dec_le (start + frame_size) end) [
      | no over ↦ (
        lists,
        carve-end fuel start end lists (omega arith) (omega arith),
        record { blocks = h; listed = λ x. ground arith },
      )
      | yes room ↦
          let p =
            pick_order-Picked (end - start) start (omega arith) sal buddy_max_order (omega arith) in
          let o = pick_order (end - start) start buddy_max_order in
          let size = block_size-aligned o in
          let (lists', e, c) =
            carve-Carved fuel (start + block_size o) end (update lists o (push (lists o) start))
              (omega (arith, size)) eal (omega (arith, p.fits)) le (omega (arith, p.fits))
              (omega (arith, size))
              (AreBlocks-update lists o (push (lists o) start) h
                (All-push (IsBlock o) (lists o) start (h o) p.block)) in
          (
            lists',
            carve-more fuel start end lists (omega arith) room (omega (arith, p.fits)) ∙ e,
            Carved-more start end o lists lists' p (omega arith) h c,
          )
    ]
