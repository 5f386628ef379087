-- ===== src/Memory/Bringup.antt =====
-- `init` and `self_test` of kernel/src/memory.rs, with feature alloc-buddy.
pub mod Tests
use rusty_core.Prelude.{
  ℕ, zero, suc, ◌+◌, ◌<◌, ◌≡◌, refl, Bool, true, false, Option, none, some, List, [], ◌∷◌, ◌++◌,
  if◌then◌else◌, length, get_or, ◌==◌, Outcome, done, panics, running, ◌>>=◌, ◌>>◌, assert, add_u64,
  u64_mod, arith, ap, ◌∙◌, lt→ltb,
}
use rusty_core.Prelude.Vecs.{push}
use rusty_core.Memory.Regions.{Region, usable_summary}
use rusty_core.Memory.Buddy.{Buddy, activate}
use rusty_core.Memory.Buddy
use rusty_core.Memory.SelfTest.{self_test_reclaim}
use rusty_core.Memory.Mapping.{Paging, Result, phys_mem_offset, virt_addr, init_heap}

-- `n..n + left`.
unfoldable pub range_from : ℕ → ℕ → List ℕ
range_from n zero = []
range_from n (suc left) = n ∷ range_from (suc n) left

-- `v.iter().sum()` in the dev profile.
unfoldable pub sum_u64 : ℕ → List ℕ → Outcome ℕ
sum_u64 acc [] = done acc
sum_u64 acc (x ∷ xs) = add_u64 acc x >>= λ acc2. sum_u64 acc2 xs

abbrev pub coffee : ℕ
coffee = 0xC0F_FEE

unfoldable pub probe_vec : ℕ → List ℕ
unfolding push range_from
probe_vec region_count = push (push [] coffee) region_count ++ range_from 0 64

-- The result is the sum that is printed.
unfoldable pub self_test : ℕ → Bool → Outcome (Option ℕ)
unfolding probe_vec sum_u64
self_test region_count enabled =
    if enabled
    then (do
      let v = probe_vec region_count
      assert (get_or v 0 0 == coffee)
      assert (length v == 66)
      sum ← sum_u64 0 v
      done (some sum))
    else done none

-- `.expect(…)` on a result.
abbrev pub expect_ok : {A : Type 0} → Result A → Outcome A
expect_ok (Result.ok a) = done a
expect_ok (Result.err e) = panics

abbrev pub expect_some : {A : Type 0} → Option A → Outcome A
expect_some (some a) = done a
expect_some none = panics

-- What the summary line shows, and the parts that the boot goes on with.
pub record Memory (M : Type 0) : Type 0 where
  pub mapper : M
  pub allocator : Buddy
  pub usable : ℕ × ℕ
  pub heap : ℕ × ℕ

-- `offset` is the bootloader's `physical_memory_offset`, `m` the page tables that CR3 names.
unfoldable pub init :
    {M : Type 0} → Paging M Buddy → Option ℕ → List Region → ℕ → Bool → M → Outcome (Memory M)
unfolding virt_addr init_heap self_test
init paging offset regions heap_size self_tests m = do
  phys ← expect_some offset
  virt ← virt_addr phys
  assert (virt == phys_mem_offset)
  (mapped, m2, b2) ← init_heap paging heap_size m (Buddy.new regions)
  heap ← expect_ok mapped
  b3 ← activate b2
  b4 ← self_test_reclaim b3
  tested ← self_test (length regions) self_tests
  done (record { mapper = m2; allocator = b4; usable = usable_summary regions; heap = heap })

sum : List ℕ → ℕ
sum [] = 0
sum (x ∷ xs) = x + sum xs

sum_u64-sum :
    (acc : ℕ) (xs : List ℕ) → acc + sum xs < u64_mod → sum_u64 acc xs ≡ done (acc + sum xs)
unfolding sum_u64 sum
sum_u64-sum acc [] room = ap (λ (n : ℕ). done n) (omega arith)
sum_u64-sum acc (x ∷ xs) room =
    rw (lt→ltb (acc + x) u64_mod (omega arith), ◌>>=◌)
      (sum_u64-sum (acc + x) xs (omega arith) ∙ ap (λ (n : ℕ). done n) (omega arith))

sum_range : sum (range_from 0 64) ≡ 2016
unfolding sum range_from
sum_range = refl

-- With any number of regions that leaves room in the sum, the heap's self-test passes: it finds the first word
-- and the sixty-six elements, and its sum is that of the three parts.
self_test_sum :
    (region_count : ℕ)
    → region_count + 203489270 < u64_mod
    → self_test region_count true ≡ done (some (coffee + region_count + 2016))
unfolding self_test probe_vec push
self_test_sum region_count room =
    rw
      (
        lt→ltb (coffee + region_count) u64_mod (omega arith),
        ◌>>=◌,
        sum_u64-sum (coffee + region_count) (range_from 0 64) (omega (arith, sum_range)),
        sum_range,
      )
      refl
