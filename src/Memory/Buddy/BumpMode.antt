-- ===== src/Memory/Buddy/BumpMode.antt =====
-- The allocator before `activate`: one call of `allocate_frame`.
use rusty_core.Prelude.{
  ℕ, ◌+◌, ◌%◌, ◌<◌, u64_mod, arith, ◌≡◌, ◌⊎◌, inl, inr, ap, ◌∙◌, false, Option, none, some, done,
  if◌then◌else◌, ◌>>=◌,
}
use rusty_core.Memory.Regions.{frame_size}
use rusty_core.Prelude.Vecs.{All, All-get}
use rusty_core.Memory.Buddy.Activation.{IsPhysical}
use rusty_core.Memory.Cursor.{Cursor, walk, rounds}
use rusty_core.Memory.Cursor.Walks.{Found, walk-Found, Rested, walk-Rested}
use rusty_core.Memory.Cursor.Consumed.{walk_returns}
use rusty_core.Memory.Buddy.{Buddy, allocate_frame, take_frame, bump_one, hand_out}
use rusty_core.Memory.Buddy.Frames.{hand_out-some}

module _ (b : Buddy) (inactive : b.active ≡ false) (phys : All IsPhysical b.regions)
    (room : b.allocated + 1 < u64_mod) where
  allocate_frame-inactive : allocate_frame b ≡ (bump_one b >>= hand_out)
  unfolding allocate_frame
  allocate_frame-inactive =
      ap (λ t. if t then (take_frame b >>= hand_out) else (bump_one b >>= hand_out)) inactive

  bump_one-walk :
      {o : Option ℕ} {c : Cursor}
      → walk (rounds b.regions) b.regions b.cursor ≡ done (o, c)
      → allocate_frame b ≡ hand_out (o, record b { cursor = c })
  unfolding bump_one
  bump_one-walk e = allocate_frame-inactive ∙ rw (e, ◌>>=◌)

  bumped :
      (o : Option ℕ) (c : Cursor)
      → b.cursor.next_addr % frame_size ≡ 0
      → walk (rounds b.regions) b.regions b.cursor ≡ done (o, c)
      → ((allocate_frame b ≡ done (none, record b { cursor = c })) × Rested b.cursor c)
        ⊎ ((a : ℕ) × (allocate_frame b
              ≡ done (some a, record b { cursor = c; allocated = b.allocated + 1 }))
            × Found b.regions b.cursor a c)
  unfolding hand_out
  bumped none c al e = inl (bump_one-walk e, walk-Rested _ b.regions b.cursor c e)
  bumped (some a) c al e =
      let f = walk-Found _ b.regions b.cursor a c al e in
      inr (
        a,
        bump_one-walk e
            ∙ hand_out-some (record b { cursor = c }) a f.aligned f.after_zero_page
                (omega (
                  arith,
                  f.before_end,
                  (All-get IsPhysical b.regions c.region_idx phys f.found).end_in,
                ))
                room,
        f,
      )

  -- A request in bump mode returns on a map below the physical limit: with the frame that the cursor finds, or with none.
  pub allocate_frame-bump :
      b.cursor.next_addr % frame_size ≡ 0
      → (c : Cursor) × (((allocate_frame b ≡ done (none, record b { cursor = c }))
            × Rested b.cursor c)
          ⊎ ((a : ℕ) × (allocate_frame b
                ≡ done (some a, record b { cursor = c; allocated = b.allocated + 1 }))
              × Found b.regions b.cursor a c))
  allocate_frame-bump al = let (o, c, e) = walk_returns b.regions b.cursor in (c, bumped o c al e)
