-- ===== src/Memory/Regions.antt =====
-- The memory map, as kernel/src/memory.rs and its allocators read it. `MemoryRegion` is a type of
-- the crate bootloader_api: of its `kind` the code only asks whether it is `Usable`.
use rusty_core.Prelude.{
  ℕ, ◌+◌, ◌-◌, ◌≤◌, ◌<◌, ◌≡◌, Bool, true, List, [], ◌∷◌, some, if◌then◌else◌, ltb, saturating_add,
  get_elem?, ◌^◌, Outcome, done, ◌>>◌, assert,
}

pub record Region : Type 0 where
  pub start : ℕ
  pub end : ℕ
  pub usable : Bool

-- `const FRAME_SIZE` of buddy.rs (4096 in bump.rs), and `MIN_ADDR`, the end of the zero page.
abbrev pub frame_size : ℕ
frame_size = 4096

abbrev pub min_addr : ℕ
min_addr = 0x1000

-- `PhysAddr::new`, which panics at an address of more than 52 bits.
abbrev pub phys_limit : ℕ
phys_limit = 2 ^ 52

abbrev pub phys_addr : ℕ → Outcome ℕ
phys_addr a = do assert (ltb a phys_limit); done a

-- One round of the loop of `usable_summary`.
count_region : Region → ℕ × ℕ → ℕ × ℕ
count_region r (bytes, count) =
    if r.usable
    then if ltb r.end r.start
      then (bytes, count)
      else (saturating_add bytes (r.end - r.start), count + 1)
    else (bytes, count)

summary_loop : List Region → ℕ × ℕ → ℕ × ℕ
summary_loop [] acc = acc
summary_loop (r ∷ rs) acc = summary_loop rs (count_region r acc)

unfoldable pub usable_summary : List Region → ℕ × ℕ
unfolding count_region summary_loop
usable_summary rs = summary_loop rs (0, 0)

-- An address that usable region `i` of the map holds.
pub record Holds (rs : List Region) (i x : ℕ) : Type 0 where
  pub region : Region
  pub found : get_elem? rs i ≡ some region
  pub is_usable : region.usable ≡ true
  pub low : region.start ≤ x
  pub high : x < region.end

-- No address lies in two usable entries of the map: what the bootloader guarantees.
abbrev pub AreDisjoint : List Region → Type 0
AreDisjoint rs = (i j x : ℕ) → Holds rs i x → Holds rs j x → i ≡ j
