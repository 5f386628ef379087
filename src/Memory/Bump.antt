-- ===== src/Memory/Bump.antt =====
-- kernel/src/memory/bump.rs: the bump frame allocator, which hands out and never takes back.
use rusty_core.Prelude.{
  ℕ, ◌+◌, ◌%◌, ◌<◌, ◌≤◌, ◌≡◌, ◌⊎◌, inl, inr, refl, List, Option, none, some, arith, lt→ltb, Outcome,
  done, ◌>>=◌,
}
use rusty_core.Memory.Regions.{Region, AreDisjoint, frame_size, min_addr, phys_limit, phys_addr}
use rusty_core.Prelude.Vecs.{All, All-get}
use rusty_core.Memory.Buddy.Activation.{IsPhysical}
use rusty_core.Memory.Cursor.{Cursor, walk, rounds}
use rusty_core.Memory.Cursor.Walks.{walk-Found}
use rusty_core.Memory.Cursor.Consumed.{
  Consumed, Found-Consumed, Found-fresh, Consumed-mono, walk_returns,
}

pub record BootFrameAllocator : Type 0 where
  pub regions : List Region
  pub cursor : Cursor

unfoldable pub new : List Region → BootFrameAllocator
new regions = record { regions = regions; cursor = record { region_idx = 0; next_addr = 0 } }

unfoldable pub allocate_frame : BootFrameAllocator → Outcome (Option ℕ × BootFrameAllocator)
allocate_frame b = do
  (frame, c) ← walk (rounds b.regions) b.regions b.cursor
  elim frame [
    | none ↦ done (none, record b { cursor = c })
    | some a ↦ phys_addr a >>= λ p. done (some p, record b { cursor = c })
  ]

-- What a request that returns frame `a` promises: the frame is aligned usable memory past the zero page
-- that lay ahead of the cursor, and now lies behind it with all that lay there before.
pub record Handed (b : BootFrameAllocator) (a : ℕ) (b' : BootFrameAllocator) : Type 0 where
  pub same_map : b'.regions ≡ b.regions
  pub aligned : a % frame_size ≡ 0
  pub after_zero_page : min_addr ≤ a
  pub fresh : (x : ℕ) → a ≤ x → x < a + frame_size → ¬ Consumed b.regions b.cursor x
  pub behind : (x : ℕ) → a ≤ x → x < a + frame_size → Consumed b'.regions b'.cursor x
  pub kept : (x : ℕ) → Consumed b.regions b.cursor x → Consumed b'.regions b'.cursor x
  pub next_aligned : b'.cursor.next_addr % frame_size ≡ 0

allocate_walk-none :
    (b : BootFrameAllocator) {c : Cursor}
    → walk (rounds b.regions) b.regions b.cursor ≡ done (none, c)
    → allocate_frame b ≡ done (none, record b { cursor = c })
unfolding allocate_frame
allocate_walk-none b e = rw (e, ◌>>=◌) refl

allocate_walk-some :
    (b : BootFrameAllocator) {a : ℕ} {c : Cursor}
    → walk (rounds b.regions) b.regions b.cursor ≡ done (some a, c)
    → a < phys_limit
    → allocate_frame b ≡ done (some a, record b { cursor = c })
unfolding allocate_frame
allocate_walk-some b {a} e low = rw (e, ◌>>=◌) (rw (lt→ltb a phys_limit low) refl)

-- On a map of disjoint regions below the physical limit a request always returns. Where it returns a frame, the frame is aligned
-- usable memory past the zero page that no earlier request has passed, and no later one will return.
pub allocate_frame-Handed :
    (b : BootFrameAllocator)
    → AreDisjoint b.regions
    → All IsPhysical b.regions
    → b.cursor.next_addr % frame_size ≡ 0
    → (b' : BootFrameAllocator) × ((allocate_frame b ≡ done (none, b'))
        ⊎ ((a : ℕ) × (allocate_frame b ≡ done (some a, b')) × Handed b a b'))
allocate_frame-Handed b disjoint phys al =
    let (o, c, e) = walk_returns b.regions b.cursor in (record b { cursor = c }, go o c e)
  where
    go :
        (o : Option ℕ) (c : Cursor)
        → walk (rounds b.regions) b.regions b.cursor ≡ done (o, c)
        → (allocate_frame b ≡ done (none, record b { cursor = c }))
          ⊎ ((a : ℕ) × (allocate_frame b ≡ done (some a, record b { cursor = c }))
              × Handed b a (record b { cursor = c }))
    go none c e = inl (allocate_walk-none b e)
    go (some a) c e =
        let f = walk-Found (rounds b.regions) b.regions b.cursor a c al e in
        inr (
          a,
          allocate_walk-some b e (
              omega (
                arith,
                f.before_end,
                (All-get IsPhysical b.regions c.region_idx phys f.found).end_in,
              )),
          record {
            same_map = refl;
            aligned = f.aligned;
            after_zero_page = f.after_zero_page;
            fresh = Found-fresh f disjoint;
            behind = Found-Consumed f;
            kept = Consumed-mono f;
            next_aligned = omega (arith, f.next, f.aligned);
          },
        )
