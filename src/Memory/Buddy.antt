-- ===== src/Memory/Buddy.antt =====
-- kernel/src/memory/buddy.rs: the buddy frame allocator. The array of free lists is a function of
-- the order; a frame is named by its start address.
pub mod Measure
pub mod Blocks
pub mod Takes
pub mod BumpMode
pub mod Ownership
pub mod Shares
pub mod Activation
pub mod Carving
pub mod Frames
pub mod Weights
pub mod Empty
use rusty_core.Prelude.{
  ℕ, zero, suc, ◌+◌, ◌-◌, ◌*◌, ◌/◌, ◌%◌, ◌^◌, min, max, bit_xor, ◌&&◌, Bool, true, false, List, [],
  ◌∷◌, Option, none, some, if◌then◌else◌, ltb, leb, ◌==◌, not, add_u64, next_multiple_of, u64_max,
  length, update, Outcome, done, panics, running, ◌>>=◌, ◌>>◌, assert,
}
use rusty_core.Prelude.Vecs.{push, pop, position, swap_remove}
use rusty_core.Memory.Regions.{Region, frame_size, min_addr, phys_addr}
use rusty_core.Memory.Cursor.{Cursor, walk, rounds}

abbrev pub buddy_max_order : ℕ
buddy_max_order = 12

abbrev pub buddy_orders : ℕ
buddy_orders = buddy_max_order + 1

-- `1u64 << (order + 12)`, the bytes of a block.
unfoldable pub block_size : ℕ → ℕ
block_size order = 2 ^ (order + 12)

abbrev pub FreeLists : Type 0
FreeLists = ℕ → List ℕ

pub record Buddy : Type 0 where
  pub regions : List Region
  pub cursor : Cursor
  pub active : Bool
  pub free_lists : FreeLists
  pub allocated : ℕ

unfoldable pub new : List Region → Buddy
new regions = record {
  regions = regions;
  cursor = record { region_idx = 0; next_addr = 0 };
  active = false;
  free_lists = λ _. [];
  allocated = 0;
}

-- The inner loop of `activate`: the largest order whose block fits and is aligned, from `order` down.
unfoldable pub pick_order : ℕ → ℕ → ℕ → ℕ
pick_order remaining start zero = 0
pick_order remaining start (suc o) =
    let lower = pick_order remaining start o in
    if leb (block_size (suc o)) remaining && (start % block_size (suc o) == 0) then suc o else lower

-- `while start + FRAME_SIZE <= end`.
unfoldable pub carve : ℕ → ℕ → ℕ → FreeLists → Outcome FreeLists
carve zero start end lists = running
carve (suc fuel) start end lists = do
  next ← add_u64 start frame_size
  elim (leb next end) [
    | true ↦
        let order = pick_order (end - start) start buddy_max_order in
        do
          after ← add_u64 start (block_size order)
          carve fuel after end (update lists order (push (lists order) start))
    | false ↦ done lists
  ]

-- Enough rounds to carve up to `end`: each takes at least one frame.
abbrev pub carve_rounds : ℕ → ℕ
carve_rounds end = suc (suc (end / frame_size))

-- One round of `for (i, r) in self.regions.iter().enumerate()`.
unfoldable pub carve_region : Cursor → ℕ → Region → FreeLists → Outcome FreeLists
carve_region c i r lists =
    if not r.usable then done lists else if leb r.end r.start then done lists else (do
      aligned ← next_multiple_of r.start frame_size
      let start = max aligned min_addr
      let end = r.end / frame_size * frame_size
      if i == c.region_idx
          then (do
            from ← next_multiple_of c.next_addr frame_size
            carve (carve_rounds end) (max start from) end lists)
          else if ltb i c.region_idx
          then done lists
          else carve (carve_rounds end) start end lists)

unfoldable pub carve_regions : Cursor → ℕ → List Region → FreeLists → Outcome FreeLists
carve_regions c i [] lists = done lists
carve_regions c i (r ∷ rs) lists =
    carve_region c i r lists >>= λ lists'. carve_regions c (i + 1) rs lists'

unfoldable pub activate : Buddy → Outcome Buddy
activate b = do
  assert (not b.active)
  lists ← carve_regions b.cursor 0 b.regions b.free_lists
  done (record b {
    cursor = record { region_idx = length b.regions; next_addr = u64_max };
    active = true;
    free_lists = lists;
  })

unfoldable pub bump_one : Buddy → Outcome (Option ℕ × Buddy)
bump_one b = do
  (addr, c) ← walk (rounds b.regions) b.regions b.cursor
  done (addr, record b { cursor = c })

-- `n += list.len() * (1 << order)` over the orders below `k`.
unfoldable pub frames_below : ℕ → FreeLists → ℕ
frames_below zero lists = 0
frames_below (suc k) lists = frames_below k lists + length (lists k) * 2 ^ k

unfoldable pub free_frames : Buddy → ℕ
unfolding frames_below
free_frames b = frames_below buddy_orders b.free_lists

-- The recursion goes up the orders: `buddy_orders - order` calls reach the guard.
unfoldable pub take_block : ℕ → FreeLists → ℕ → Outcome (Option (ℕ × FreeLists))
take_block zero lists order = running
take_block (suc fuel) lists order =
    if ltb buddy_max_order order then done none else elim (pop (lists order)) [
      | some (addr, front) ↦ done (some (addr, update lists order front))
      | none ↦ take_block fuel lists (order + 1) >>= λ taken. elim taken [
        | none ↦ done none
        | some (higher, lists') ↦ do
          upper ← add_u64 higher (block_size order)
          done (some (higher, update lists' order (push (lists' order) upper)))
      ]
    ]

unfoldable pub take_frame : Buddy → Outcome (Option ℕ × Buddy)
take_frame b = take_block (buddy_orders + 1) b.free_lists 0 >>= λ taken. elim taken [
  | none ↦ done (none, b)
  | some (addr, lists) ↦ done (some addr, record b { free_lists = lists })
]

-- The end of `allocate_frame`: the ledger, behind the two debug assertions, and `PhysAddr::new`.
unfoldable pub hand_out : Option ℕ × Buddy → Outcome (Option ℕ × Buddy)
hand_out (none, b) = done (none, b)
hand_out (some addr, b) = do
  assert (addr % frame_size == 0)
  assert (leb min_addr addr)
  allocated ← add_u64 b.allocated 1
  frame ← phys_addr addr
  done (some frame, record b { allocated = allocated })

unfoldable pub allocate_frame : Buddy → Outcome (Option ℕ × Buddy)
allocate_frame b = if b.active then (take_frame b >>= hand_out) else (bump_one b >>= hand_out)

-- The loop of `deallocate_frame`, with `rounds` orders left below `BUDDY_MAX_ORDER`.
unfoldable pub merge : ℕ → FreeLists → ℕ → ℕ → FreeLists
merge zero lists addr order = update lists order (push (lists order) addr)
merge (suc left) lists addr order =
    let buddy = bit_xor addr (block_size order) in
    elim (position buddy (lists order)) [
      | some pos ↦
          merge left (update lists order (swap_remove (lists order) pos)) (min addr buddy)
            (order + 1)
      | none ↦ update lists order (push (lists order) addr)
    ]

unfoldable pub deallocate_frame : Buddy → ℕ → Outcome Buddy
deallocate_frame b addr = do
  assert b.active
  assert (addr % frame_size == 0)
  assert (leb min_addr addr)
  done (record b {
    free_lists = merge buddy_max_order b.free_lists addr 0;
    allocated = b.allocated - 1;
  })
