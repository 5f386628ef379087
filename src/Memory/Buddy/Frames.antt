-- ===== src/Memory/Buddy/Frames.antt =====
-- `allocate_frame` and `deallocate_frame` of the activated allocator, as the rest of the kernel sees
-- them: the frame that changes hands, and every address of the others.
use rusty_core.Prelude.{
  ℕ, ◌+◌, ◌-◌, ◌*◌, ◌/◌, ◌%◌, ◌<◌, ◌≤◌, ◌≡◌, ◌⊎◌, inl, inr, refl, ap, ◌∙◌, true, none, some, arith,
  done, Option-cases, le→leb, lt→ltb, u64_mod, if◌then◌else◌, ◌>>=◌,
}
use native.Mathlib.Decide.{dec_le}
use rusty_core.Memory.Regions.{frame_size, min_addr, phys_limit}
use rusty_core.Memory.Buddy.{
  Buddy, FreeLists, buddy_orders, buddy_max_order, free_frames, take_block, take_frame, bump_one,
  hand_out, allocate_frame, merge, deallocate_frame,
}
use rusty_core.Memory.Buddy.Measure.{IsBlock, AreBlocks}
use rusty_core.Memory.Buddy.Blocks.{split_block, Taken, split_block-Taken, Merged, merge-Merged}
use rusty_core.Memory.Buddy.Takes.{AreLow, take_block-split}
use rusty_core.Memory.Buddy.Weights.{
  frames, frames-Splits, covers, covers-Splits, within, coverage, free_frames-total,
  block_size-zero,
}
use rusty_core.Memory.Buddy.Empty.{split_block-none-total}

-- Every free block starts at a multiple of its size, and none covers an address of the zero page.
pub record IsSound (b : Buddy) : Type 0 where
  pub blocks : AreBlocks b.free_lists
  pub zero_page : (x : ℕ) → x < min_addr → coverage b.free_lists x ≡ 0

-- No free block reaches past the physical addresses, and the ledger can count one frame more.
pub record HasRoom (b : Buddy) : Type 0 where
  pub low : AreLow b.free_lists
  pub ledger : b.allocated + 1 < u64_mod

-- The allocator went from `b` to `b'` and handed out frame `a`.
pub record Allocated (b : Buddy) (a : ℕ) (b' : Buddy) : Type 0 where
  pub aligned : a % frame_size ≡ 0
  pub after_zero_page : min_addr ≤ a
  pub physical : a < phys_limit
  pub counted : free_frames b ≡ free_frames b' + 1
  pub ledger : b'.allocated ≡ b.allocated + 1
  pub moved :
      (x : ℕ) → coverage b.free_lists x ≡ coverage b'.free_lists x + within a (a + frame_size) x
  pub sound : IsSound b'
  pub active : b'.active ≡ true
  pub same_map : (b'.regions ≡ b.regions) × (b'.cursor ≡ b.cursor)

-- The allocator went from `b` to `b'` and took frame `a` back.
pub record Freed (b : Buddy) (a : ℕ) (b' : Buddy) : Type 0 where
  pub counted : free_frames b' ≡ free_frames b + 1
  pub ledger : b'.allocated ≡ b.allocated - 1
  pub moved :
      (x : ℕ) → coverage b'.free_lists x ≡ coverage b.free_lists x + within a (a + frame_size) x
  pub sound : IsSound b'
  pub active : b'.active ≡ true
  pub same_map : (b'.regions ≡ b.regions) × (b'.cursor ≡ b.cursor)

IsBlock-frame : {a : ℕ} → IsBlock 0 a → a % frame_size ≡ 0
IsBlock-frame (m, e) = omega (arith, ap (λ (t : ℕ). m * t) block_size-zero)

frame-IsBlock : {a : ℕ} → a % frame_size ≡ 0 → IsBlock 0 a
frame-IsBlock {a} e = (a / 4096, omega (arith, ap (λ (t : ℕ). a / 4096 * t) block_size-zero))

within_self : (a : ℕ) → within a (a + frame_size) a ≡ 1
within_self a = ground arith

frame_weight : (x a : ℕ) → covers x 0 a ≡ within a (a + frame_size) x
frame_weight x a = ap (λ (t : ℕ). within a (a + t) x) block_size-zero

pub allocate_frame-active :
    (b : Buddy) → b.active ≡ true → allocate_frame b ≡ (take_frame b >>= hand_out)
unfolding allocate_frame
allocate_frame-active b act =
    ap (λ t. if t then (take_frame b >>= hand_out) else (bump_one b >>= hand_out)) act

take_frame-none :
    (b : Buddy)
    → take_block (buddy_orders + 1) b.free_lists 0 ≡ done none
    → take_frame b ≡ done (none, b)
unfolding take_frame
take_frame-none b e = rw (e, ◌>>=◌) refl

take_frame-some :
    (b : Buddy) {a : ℕ} {lists' : FreeLists}
    → take_block (buddy_orders + 1) b.free_lists 0 ≡ done (some (a, lists'))
    → take_frame b ≡ done (some a, record b { free_lists = lists' })
unfolding take_frame
take_frame-some b e = rw (e, ◌>>=◌) refl

pub hand_out-some :
    (b : Buddy) (a : ℕ)
    → a % frame_size ≡ 0
    → min_addr ≤ a
    → a < phys_limit
    → b.allocated + 1 < u64_mod
    → hand_out (some a, b) ≡ done (some a, record b { allocated = b.allocated + 1 })
unfolding hand_out
hand_out-some b a al le low room =
    rw (al, le→leb min_addr a le, lt→ltb (b.allocated + 1) u64_mod room, lt→ltb a phys_limit low)
      refl

module _ {b : Buddy} (sound : IsSound b) (has_room : HasRoom b) (act : b.active ≡ true) where
  took :
      {a : ℕ} {lists' : FreeLists}
      → split_block (buddy_orders + 1) b.free_lists 0 ≡ some (a, lists')
      → Allocated b a (record b { free_lists = lists'; allocated = b.allocated + 1 })
  took {a} {lists'} e = record {
    aligned = IsBlock-frame count.block;
    after_zero_page = past;
    physical = has_room.low a (omega (arith, moved a, within_self a));
    counted = omega (arith, count.kept, free_frames-total b, free_frames-total b');
    ledger = refl;
    moved = moved;
    sound = record {
      blocks = count.blocks;
      zero_page = λ x h. omega (arith, moved x, sound.zero_page x h);
    };
    active = act;
    same_map = (refl, refl);
  }
    where
      b' : Buddy
      b' = record b { free_lists = lists'; allocated = b.allocated + 1 }

      count : Taken frames b.free_lists 0 a lists'
      count =
          split_block-Taken frames frames-Splits (buddy_orders + 1) b.free_lists 0 sound.blocks e

      moved : (x : ℕ) → coverage b.free_lists x ≡ coverage lists' x + within a (a + frame_size) x
      moved x =
          let t =
            split_block-Taken (covers x) (covers-Splits x) (buddy_orders + 1) b.free_lists 0
              sound.blocks e in
          omega (arith, t.kept, frame_weight x a)

      past : min_addr ≤ a
      past = elim (dec_le min_addr a) [
        | yes le ↦ le
        | no lt ↦ absurd (omega (arith, moved a, within_self a, sound.zero_page a (omega arith)))
      ]

  split :
      take_block (buddy_orders + 1) b.free_lists 0
      ≡ done (split_block (buddy_orders + 1) b.free_lists 0)
  split =
      take_block-split (buddy_orders + 1) b.free_lists 0 (omega arith) (omega arith) sound.blocks
        has_room.low

  -- In a sound, activated allocator whose free blocks lie below the physical limit, and whose ledger can
  -- count one frame more, a request fails exactly when no frame is free, and leaves the
  -- allocator as it was. Otherwise it hands out an aligned frame past the zero page, which was free
  -- and no longer is; every other address is covered as before, and one frame fewer is free.
  pub allocate_frame-Allocated :
      ((free_frames b ≡ 0) × (allocate_frame b ≡ done (none, b)))
      ⊎ ((a : ℕ) × (b' : Buddy) × (allocate_frame b ≡ done (some a, b')) × Allocated b a b')
  unfolding hand_out
  allocate_frame-Allocated = elim (Option-cases (split_block (buddy_orders + 1) b.free_lists 0)) [
    | inl e ↦ inl (
      omega (arith, free_frames-total b, split_block-none-total frames b.free_lists e),
      allocate_frame-active b act
          ∙ ap (λ t. t >>= hand_out) (take_frame-none b (split ∙ ap (λ r. done r) e)),
    )
    | inr ((a, lists'), e) ↦
        let t = took e in
        inr (
          a,
          record b { free_lists = lists'; allocated = b.allocated + 1 },
          allocate_frame-active b act
              ∙ ap (λ t. t >>= hand_out) (take_frame-some b (split ∙ ap (λ r. done r) e))
              ∙ hand_out-some (record b { free_lists = lists' }) a t.aligned t.after_zero_page
                  t.physical has_room.ledger,
          t,
        )
  ]

module _ {b : Buddy} (sound : IsSound b) (act : b.active ≡ true) where
  -- In a sound, activated allocator any frame at a multiple of the frame size past the zero page is
  -- taken back, whether it was handed out or not: no assertion of
  -- `deallocate_frame` fails, its addresses are covered once more, all others as before, and one more
  -- frame is free, in whatever block the merge has left it.
  pub deallocate_frame-Freed :
      (a : ℕ)
      → a % frame_size ≡ 0
      → min_addr ≤ a
      → (b' : Buddy) × (deallocate_frame b a ≡ done b') × Freed b a b'
  unfolding deallocate_frame
  deallocate_frame-Freed a al le = (
    b',
    rw (act, al, le→leb min_addr a le),
    record {
      counted = omega (arith, count.kept, free_frames-total b, free_frames-total b');
      ledger = refl;
      moved = moved;
      sound = record {
        blocks = count.blocks;
        zero_page = λ x h. omega (arith, moved x, sound.zero_page x h, outside x h);
      };
      active = act;
      same_map = (refl, refl);
    },
  )
    where
      merged : FreeLists
      merged = merge buddy_max_order b.free_lists a 0

      b' : Buddy
      b' = record b { free_lists = merged; allocated = b.allocated - 1 }

      count : Merged frames b.free_lists 0 a merged
      count =
          merge-Merged frames frames-Splits buddy_max_order b.free_lists a 0 refl sound.blocks
            (frame-IsBlock al)

      moved : (x : ℕ) → coverage merged x ≡ coverage b.free_lists x + within a (a + frame_size) x
      moved x =
          let t =
            merge-Merged (covers x) (covers-Splits x) buddy_max_order b.free_lists a 0 refl
              sound.blocks (frame-IsBlock al) in
          omega (arith, t.kept, frame_weight x a)

      outside : (x : ℕ) → x < min_addr → within a (a + frame_size) x ≡ 0
      outside x h = ground arith
