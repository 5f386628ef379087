-- ===== src/Memory/Bringup/Tests.antt =====
-- The bring-up on a small machine: a heap of sixteen pages, then the free lists, then both self-tests.
use rusty_core.Prelude.{
  ℕ, ◌+◌, ◌-◌, ◌≡◌, refl, ◌&&◌, true, false, Option, none, some, List, [], ◌∷◌, Outcome, done,
  panics, running, if◌then◌else◌, leb, ltb,
}
use rusty_core.Memory.Regions.{Region, usable_summary}
use rusty_core.Memory.Buddy.{Buddy, allocate_frame, free_frames, activate, deallocate_frame}
use rusty_core.Memory.Buddy
use rusty_core.Memory.SelfTest.{self_test_reclaim}
use rusty_core.Prelude.Vecs.{push, pop, position}
use rusty_core.Memory.Cursor.{walk}
use rusty_core.Memory.Mapping.{Paging, phys_mem_offset, map_heap}
use rusty_core.Memory.Bringup.{Memory, init, probe_vec, range_from}

abbrev pub Space : Type 0
Space = ℕ → Option ℕ

abbrev pub paging : Paging Space Buddy
paging = record {
  translate_addr = λ v m. m v;
  map_to = λ page frame flags m b.
      done (
        none,
        λ v. if leb page v && ltb v (page + 4096) then some (frame + (v - page)) else m v,
        b,
      );
  allocate_frame = allocate_frame;
}

-- 512 KiB of memory with the zero page, and a reserved range.
abbrev pub regions : List Region
regions =
    record { start = 0; end = 0x6_0000; usable = true }
    ∷ record { start = 0x6_0000; end = 0x7_0000; usable = false }
    ∷ record { start = 0x7_0000; end = 0x8_0000; usable = true }
    ∷ []

-- The usable bytes and regions, the frames that are free, and where the first byte of the heap lies.
report : Outcome (Memory Space) → Option ((ℕ × ℕ) × ℕ × Option ℕ)
report (done m) = some (m.usable, free_frames m.allocator, m.mapper 0xFFFF_9000_0000_0000)
report panics = none
report running = none

-- 112 frames are usable, less the zero page and the sixteen pages of the heap, which starts at frame 1.
booted :
    report (init paging (some phys_mem_offset) regions 0x1_0000 true (λ _. none))
    ≡ some ((458752, 2), 95, some 4096)
unfolding report init map_heap self_test_reclaim activate allocate_frame free_frames
    deallocate_frame Buddy.new usable_summary push probe_vec range_from Buddy.bump_one walk
    Buddy.hand_out Buddy.carve_regions Buddy.carve_region Buddy.carve Buddy.block_size
    Buddy.pick_order Buddy.take_frame Buddy.take_block pop Buddy.merge position
booted = refl
