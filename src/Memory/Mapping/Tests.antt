-- ===== src/Memory/Mapping/Tests.antt =====
-- A page table that is a function of the address, and an allocator that counts frames up.
use rusty_core.Prelude.{
  ℕ, ◌+◌, ◌-◌, ◌*◌, ◌<◌, ◌≤◌, ◌≡◌, ◌&&◌, refl, Option, none, some, done, arith, if◌then◌else◌, leb,
  ltb,
}
use rusty_core.Memory.Mapping.{Paging, Result, heap_start, map_heap}
use rusty_core.Memory.Mapping.Heap.{IsPaging, AreMapped, map_heap-AreMapped}

abbrev Space : Type 0
Space = ℕ → Option ℕ

-- The frames 4096 * n with n below the number are handed out, and those below a million exist.
abbrev left : ℕ → ℕ
left n = 1000000 - n

abbrev Gone : ℕ → ℕ → Type 0
Gone n f = f < 4096 * n

abbrev paging : Paging Space ℕ
paging = record {
  translate_addr = λ v m. m v;
  map_to = λ page frame flags m n.
      done (
        none,
        λ v. if leb page v && ltb v (page + 4096) then some (frame + (v - page)) else m v,
        n,
      );
  allocate_frame = λ n. done (if ltb n 1000000 then some (4096 * n) else none, n + 1);
}

paging-IsPaging : IsPaging paging left Gone
paging-IsPaging = record {
  maps = λ page frame flags m n whole_page whole_frame free enough. (
    λ v. if leb page v && ltb v (page + 4096) then some (frame + (v - page)) else m v,
    n,
    refl,
    record { inside = λ v lo hi. ground arith; outside = λ v h. ground arith },
    omega arith,
    λ g t. t,
  );
  hands_out = λ n some_left. (
    4096 * n,
    n + 1,
    ground arith,
    omega arith,
    omega arith,
    (λ t. omega arith, omega arith),
    λ g t. omega arith,
  );
}

abbrev empty : Space
empty v = none

-- A heap of eight megabytes.
map_heap-AreMapped_example :
    (m' : Space) × (n' : ℕ) × (map_heap paging heap_start 8388608 empty 1
      ≡ done (Result.ok tt, m', n'))
    × AreMapped paging left Gone 2048 heap_start empty m' 1 n'
    × ((v : ℕ)
        → heap_start ≤ v
        → v < heap_start + 8388608
        → (i : ℕ) × (i < 2048) × (heap_start + i * 4096 ≤ v) × (v < heap_start + i * 4096 + 4096))
map_heap-AreMapped_example =
    map_heap-AreMapped paging left Gone heap_start 8388608 empty 1 paging-IsPaging (omega arith)
      (omega arith) (omega arith) (λ v lo hi. refl) (omega arith)
