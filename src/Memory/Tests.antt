-- ===== src/Memory/Tests.antt =====
-- Runs of the frame allocators on a small memory map, and the instances of their theorems there.
use rusty_core.Prelude.{
  ℕ, zero, suc, ◌+◌, ◌%◌, ◌<◌, ◌≤◌, ◌≡◌, ◌⊎◌, refl, true, false, List, [], ◌∷◌, Option, none, some,
  arith, Outcome, done, panics, running, get_elem?,
}
use rusty_core.Prelude.Vecs.{push, pop, position, swap_remove}
use rusty_core.Memory.Regions.{Region, Holds, AreDisjoint, frame_size, min_addr}
use rusty_core.Memory.Cursor.{walk, place, advance}
use rusty_core.Memory.Buddy.{
  Buddy, new, activate, allocate_frame, deallocate_frame, free_frames, carve, carve_region,
  carve_regions, pick_order, block_size, take_frame, take_block, bump_one, hand_out, merge,
  frames_below,
}
use rusty_core.Memory.Buddy.Weights.{coverage}
use rusty_core.Memory.Buddy.Frames.{
  IsSound, HasRoom, Allocated, Freed, allocate_frame-Allocated, deallocate_frame-Freed,
}
use rusty_core.Memory.SelfTest.{self_test_reclaim, self_test_reclaim-passes}
use rusty_core.Memory.Bump.{BootFrameAllocator, Handed, allocate_frame-Handed}
use rusty_core.Memory.Bump
use rusty_core.Memory.Buddy.Ownership.{
  System, Reach, booted, later, takes, activates, returns, owners,
}
use rusty_core.Memory.Buddy.Ownership.Safety.{
  owners-le-one, held_frames, calls_return, reached-IsSound, reached-HasRoom,
}

-- 64 KiB of usable memory from address 0, and 64 KiB that the firmware keeps.
abbrev small_map : List Region
small_map =
    record { start = 0; end = 0x10000; usable = true }
    ∷ record { start = 0x10000; end = 0x20000; usable = false }
    ∷ []

abbrev buddy_of : Outcome (Option ℕ × Buddy) → Buddy
buddy_of (done (o, b)) = b
buddy_of panics = new []
buddy_of running = new []

abbrev returned : Outcome Buddy → Buddy
returned (done b) = b
returned panics = new []
returned running = new []

-- One frame taken in bump mode, then `activate`, another frame, and the first one returned.
abbrev bumped : Buddy
bumped = buddy_of (allocate_frame (new small_map))

abbrev active : Buddy
active = returned (activate bumped)

abbrev taken : Buddy
taken = buddy_of (allocate_frame active)

abbrev given : Buddy
given = returned (deallocate_frame taken 0x1000)

bumped_frame : allocate_frame (new small_map) ≡ done (some 0x1000, bumped)
unfolding allocate_frame new bump_one walk place advance hand_out
bumped_frame = refl

active_lists : activate bumped ≡ done active
unfolding activate allocate_frame new bump_one walk place advance hand_out carve carve_region
    carve_regions pick_order block_size push
active_lists = refl

taken_frame : allocate_frame active ≡ done (some 0x2000, taken)
unfolding activate allocate_frame new bump_one walk place advance hand_out carve carve_region
    carve_regions pick_order block_size push take_frame take_block pop
taken_frame = refl

given_frame : deallocate_frame taken 0x1000 ≡ done given
unfolding activate allocate_frame new bump_one walk place advance hand_out carve carve_region
    carve_regions pick_order block_size push take_frame take_block pop deallocate_frame merge
    position swap_remove
given_frame = refl

-- The free lists after `activate`: 0x2000 up to 0x10000 in two blocks, and one frame more in use.
free_after_activate :
    (free_frames active ≡ 14) × (free_frames taken ≡ 13) × (free_frames given ≡ 14)
unfolding free_frames activate allocate_frame new bump_one walk place advance hand_out carve
    carve_region carve_regions pick_order block_size push take_frame take_block pop deallocate_frame
    merge position swap_remove frames_below
free_after_activate = (refl, refl, refl)

first_region : (i x : ℕ) → Holds small_map i x → i ≡ 0
first_region zero x h = refl
first_region (suc zero) x h = cc (h.found, h.is_usable)
first_region (suc (suc i)) x h = cc (h.found)

small_map-AreDisjoint : AreDisjoint small_map
small_map-AreDisjoint i j x h k = omega (arith, first_region i x h, first_region j x k)

abbrev last : System
last = record { buddy = given; held = swap_remove (0x2000 ∷ 0x1000 ∷ []) 1 }

last-Reach : Reach small_map last
last-Reach =
    later
      (later (later (later booted (takes bumped_frame)) (activates active_lists))
        (takes taken_frame))
      (returns 1 refl given_frame)

owners-le-one_example : owners last 0x2fff ≤ 1
owners-le-one_example = owners-le-one small_map-AreDisjoint (omega arith) last-Reach 0x2fff

held_frames_example :
    (0x2000 % frame_size ≡ 0)
    × (min_addr ≤ 0x2000)
    × ((x : ℕ) → 0x2000 ≤ x → x < 0x2000 + frame_size → (j : ℕ) × Holds small_map j x)
unfolding swap_remove pop
held_frames_example = held_frames small_map-AreDisjoint (omega arith) last-Reach 0 0x2000 refl

calls_return_example :
    ((o : Option ℕ) × (b : Buddy) × (allocate_frame given ≡ done (o, b)))
    × (given.active ≡ false → (b : Buddy) × (activate given ≡ done b))
    × ((i a : ℕ)
        → given.active ≡ true
        → get_elem? last.held i ≡ some a
        → (b : Buddy) × (deallocate_frame given a ≡ done b))
calls_return_example = calls_return small_map-AreDisjoint (omega arith) last-Reach

active-Reach : Reach small_map (record { buddy = active; held = 0x1000 ∷ [] })
active-Reach = later (later booted (takes bumped_frame)) (activates active_lists)

active_is_on : active.active ≡ true
unfolding activate allocate_frame new bump_one walk hand_out carve_regions carve_region carve
    block_size pick_order
active_is_on = refl

active-IsSound : IsSound active
active-IsSound = reached-IsSound small_map-AreDisjoint (omega arith) active-Reach active_is_on

active-HasRoom : HasRoom active
active-HasRoom = reached-HasRoom small_map-AreDisjoint (omega arith) active-Reach active_is_on

allocate_frame-Allocated_example :
    ((free_frames active ≡ 0) × (allocate_frame active ≡ done (none, active)))
    ⊎ ((a : ℕ) × (b' : Buddy) × (allocate_frame active ≡ done (some a, b')) × Allocated active a b')
allocate_frame-Allocated_example =
    allocate_frame-Allocated active-IsSound active-HasRoom active_is_on

deallocate_frame-Freed_example :
    (b' : Buddy) × (deallocate_frame active 0x1000 ≡ done b') × Freed active 0x1000 b'
deallocate_frame-Freed_example =
    deallocate_frame-Freed active-IsSound active_is_on 0x1000 refl (omega arith)

self_test_reclaim-passes_example :
    (b' : Buddy) × (self_test_reclaim active ≡ done b')
    × (free_frames b' ≡ free_frames active)
    × ((x : ℕ) → coverage b'.free_lists x ≡ coverage active.free_lists x)
    × (b'.allocated ≡ active.allocated)
self_test_reclaim-passes_example =
    self_test_reclaim-passes active active-IsSound active-HasRoom active_is_on
      (omega (arith, free_after_activate.0))

allocate_frame-Handed_example :
    (b' : BootFrameAllocator) × ((Bump.allocate_frame (Bump.new small_map) ≡ done (none, b'))
      ⊎ ((a : ℕ) × (Bump.allocate_frame (Bump.new small_map) ≡ done (some a, b'))
          × Handed (Bump.new small_map) a b'))
unfolding Bump.new
allocate_frame-Handed_example =
    allocate_frame-Handed (Bump.new small_map) small_map-AreDisjoint (omega arith) refl
