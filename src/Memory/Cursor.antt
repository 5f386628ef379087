-- ===== src/Memory/Cursor.antt =====
-- The cursor that walks the memory map: the loop of `BootFrameAllocator::allocate_frame`
-- (kernel/src/memory/bump.rs), which `BuddyFrameAllocator::bump_one` repeats
-- (kernel/src/memory/buddy.rs).
pub mod Walks
pub mod Consumed
use rusty_core.Prelude.{
  ℕ, zero, suc, ◌+◌, max, Bool, List, Option, none, some, if◌then◌else◌, ltb, not, checked_add,
  checked_next_multiple_of, get_elem?, length, Outcome, done, running,
}
use rusty_core.Memory.Regions.{Region, frame_size, min_addr}

pub record Cursor : Type 0 where
  pub region_idx : ℕ
  pub next_addr : ℕ

-- What one round of the loop does with the cursor's region: go on to the next one, leave the loop by
-- `?` with `None`, or return the frame.
pub data Placement : Type 0 where
  skip stop : Placement
  take : ℕ → Placement

fit : Region → ℕ → Option ℕ → Placement
fit r addr none = stop
fit r addr (some frame_end) = if ltb r.end frame_end then skip else take addr

place_from : Region → ℕ → Option ℕ → Placement
unfolding fit
place_from r next none = skip
place_from r next (some aligned) =
    let addr = max (max aligned next) min_addr in fit r addr (checked_add addr frame_size)

unfoldable pub place : Region → ℕ → Placement
unfolding place_from
place r next =
    if not r.usable then skip else place_from r next (checked_next_multiple_of r.start frame_size)

unfoldable pub advance : Cursor → Cursor
advance c = record { region_idx = c.region_idx + 1; next_addr = 0 }

-- `loop { … }`: each round needs one unit of fuel. The frame is named by its start address.
unfoldable pub walk : ℕ → List Region → Cursor → Outcome (Option ℕ × Cursor)
unfolding place advance
walk zero rs c = running
walk (suc fuel) rs c = elim (get_elem? rs c.region_idx) [
  | none ↦ done (none, c)
  | some r ↦ elim (place r c.next_addr) [
    | skip ↦ walk fuel rs (advance c)
    | stop ↦ done (none, c)
    | take addr ↦ done (some addr, record c { next_addr = addr + frame_size })
  ]
]

-- Fuel for a walk from any cursor: each round but the last goes to a later region.
abbrev pub rounds : List Region → ℕ
rounds rs = suc (length rs)
