-- ===== src/Memory/Mapping.antt =====
-- The mappings of kernel/src/memory.rs, with `heap::init` of kernel/src/memory/heap.rs. The page tables of
-- the x86_64 crate and the frame allocator are parameters. A page and a frame are named by their first
-- address.
pub mod Heap
pub mod Window
mod Tests
use rusty_core.Prelude.{
  ℕ, zero, suc, ◌+◌, ◌-◌, ◌*◌, ◌/◌, ◌%◌, ◌^◌, Bool, true, false, ◌||◌, Option, none, some, List, [],
  ◌∷◌, if◌then◌else◌, ltb, leb, ◌==◌, Outcome, done, panics, running, ◌>>=◌, ◌>>◌, assert,
  checked_add, u64_mod,
}
use rusty_core.Memory.Regions.{phys_addr}
use rusty_core.Task.Stack.{parse_digits}

-- The flags of a mapping, all with `PRESENT | WRITABLE | NO_EXECUTE`.
pub data Flags : Type 0 where
  ram device : Flags

-- `MapToError`.
pub data MapError : Type 0 where
  frame_allocation_failed parent_entry_huge_page page_already_mapped : MapError

-- The messages, in the order of the source.
pub data Fault : Type 0 where
  mmio_unaligned mmio_occupied mmio_map_failed : Fault
  heap_size_zero heap_overflows heap_out_of_frames : Fault
  heap_no_table_frames heap_huge_page heap_already_mapped : Fault

pub data Result (A : Type 0) : Type 0 where
  ok : A → Result A
  err : Fault → Result A

-- The mapper `M` with what `map_to` answers, and the allocator `A`, from which `map_to` takes the frames of
-- new tables.
pub record Paging (M A : Type 0) : Type 0 where
  pub translate_addr : ℕ → M → Option ℕ
  pub map_to : ℕ → ℕ → Flags → M → A → Outcome (Option MapError × M × A)
  pub allocate_frame : A → Outcome (Option ℕ × A)

abbrev pub phys_mem_offset : ℕ
phys_mem_offset = 0xFFFF_8000_0000_0000

abbrev pub heap_start : ℕ
heap_start = 0xFFFF_9000_0000_0000

abbrev pub mmio_window : ℕ
mmio_window = 0xFFFF_A000_0000_0000

abbrev pub page_size : ℕ
page_size = 4096

-- `HEAP_SIZE`, of the digits that the build script passes on.
abbrev pub parse_heap_bytes : List ℕ → Outcome ℕ
parse_heap_bytes bytes = parse_digits bytes 0

-- `VirtAddr::new` panics on an address that is not canonical.
unfoldable pub virt_addr : ℕ → Outcome ℕ
virt_addr a = do assert (ltb a (2 ^ 47) || leb (2 ^ 64 - 2 ^ 47) a); done a

-- `Page::containing_address` and `PhysFrame::containing_address`.
abbrev pub containing_address : ℕ → ℕ
containing_address a = a - a % page_size

-- The messages of `map_heap` for an error of `map_to`.
abbrev pub heap_fault : MapError → Fault
heap_fault MapError.frame_allocation_failed = Fault.heap_no_table_frames
heap_fault MapError.parent_entry_huge_page = Fault.heap_huge_page
heap_fault MapError.page_already_mapped = Fault.heap_already_mapped

module _ {M A : Type 0} (paging : Paging M A) where
  unfoldable pub map_mmio_window : ℕ → M → A → Outcome (Result ℕ × M × A)
  unfolding virt_addr
  map_mmio_window phys m a =
      let rest : Outcome (Result ℕ × M × A) = do
        virt ← virt_addr mmio_window
        frame ← phys_addr phys
        (e, m2, a2) ←
            paging.map_to (containing_address virt) (containing_address frame) Flags.device m a
        done (elim e [ none ↦ Result.ok virt | some _ ↦ Result.err Fault.mmio_map_failed ], m2, a2)
      in if phys % 4096 == 0
        then elim (paging.translate_addr mmio_window m) [
          | none ↦ rest
          | some _ ↦ done (Result.err Fault.mmio_occupied, m, a)
        ]
        else done (Result.err Fault.mmio_unaligned, m, a)

  -- `for page in Page::range_inclusive(…)`, with `left` pages to go.
  unfoldable pub map_pages : ℕ → ℕ → M → A → Outcome (Result (Unit {0}) × M × A)
  map_pages zero page m a = done (Result.ok tt, m, a)
  map_pages (suc left) page m a = do
    (frame, a2) ← paging.allocate_frame a
    elim frame [
      | none ↦ done (Result.err Fault.heap_out_of_frames, m, a2)
      | some f ↦ paging.map_to page f Flags.ram m a2 >>= λ (e, m2, a3). elim e [
        | some e ↦ done (Result.err (heap_fault e), m2, a3)
        | none ↦ map_pages left (page + page_size) m2 a3
      ]
    ]

  -- The pages from that of `start` to that of the last byte.
  abbrev pub page_count : ℕ → ℕ → ℕ
  page_count start end = (containing_address (end - 1) - containing_address start) / page_size + 1

  -- Past the two checks of the size.
  unfoldable pub map_range : ℕ → ℕ → M → A → Outcome (Result (Unit {0}) × M × A)
  unfolding virt_addr map_pages
  map_range start end m a = do
    first ← virt_addr start
    last ← virt_addr (end - 1)
    map_pages (page_count first end) (containing_address first) m a

  unfoldable pub map_heap : ℕ → ℕ → M → A → Outcome (Result (Unit {0}) × M × A)
  unfolding map_range
  map_heap start size m a =
      if size == 0
      then done (Result.err Fault.heap_size_zero, m, a)
      else elim (checked_add start size) [
        | none ↦ done (Result.err Fault.heap_overflows, m, a)
        | some end ↦ map_range start end m a
      ]

  -- `heap::init`; the last part is what the global allocator of the linked_list_allocator crate is told.
  unfoldable pub init_heap : ℕ → M → A → Outcome (Result (ℕ × ℕ) × M × A)
  unfolding map_heap
  init_heap size m a = do
    (r, m2, a2) ← map_heap heap_start size m a
    done (
      elim r [ Result.ok _ ↦ Result.ok (heap_start, size) | Result.err e ↦ Result.err e ],
      m2,
      a2,
    )
