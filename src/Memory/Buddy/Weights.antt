-- ===== src/Memory/Buddy/Weights.antt =====
-- The two weights of a block that the development uses: its number of frames, and whether it covers
-- an address.
use rusty_core.Prelude.{
  ℕ, zero, suc, ◌+◌, ◌*◌, ◌^◌, ◌≡◌, refl, List, [], ◌∷◌, arith, if◌then◌else◌, leb, ltb, ◌&&◌,
  length,
}
use rusty_core.Prelude.Vecs.{sum_by}
use native.Mathlib.Nat.{two-pow-succ}
use rusty_core.Memory.Buddy.{Buddy, block_size, FreeLists, buddy_orders, frames_below, free_frames}
use rusty_core.Memory.Buddy.Measure.{block_size-suc, Splits, total}

abbrev pub frames : ℕ → ℕ → ℕ
frames o a = 2 ^ o

pub frames-Splits : Splits frames
frames-Splits o a block = two-pow-succ o

-- 1 for an address of `[a, b)`, and 0 for another.
abbrev pub within : ℕ → ℕ → ℕ → ℕ
within a b x = if leb a x && ltb x b then 1 else 0

abbrev pub covers : ℕ → ℕ → ℕ → ℕ
covers x o a = within a (a + block_size o) x

pub covers-Splits : (x : ℕ) → Splits (covers x)
covers-Splits x o a block = ground (arith, block_size-suc o)

-- How many free blocks cover `x`.
abbrev pub coverage : FreeLists → ℕ → ℕ
coverage lists x = total (covers x) buddy_orders lists

sum_by-frames : (o : ℕ) (l : List ℕ) → sum_by (frames o) l ≡ length l * 2 ^ o
unfolding sum_by
sum_by-frames o [] = omega arith
sum_by-frames o (x ∷ xs) = grind (arith, sum_by-frames o xs)

frames_below-total : (k : ℕ) (lists : FreeLists) → frames_below k lists ≡ total frames k lists
unfolding frames_below total
frames_below-total zero lists = refl
frames_below-total (suc k) lists =
    omega (arith, frames_below-total k lists, sum_by-frames k (lists k))

-- `free_frames` is the total of the frames of the free blocks.
pub free_frames-total : (b : Buddy) → free_frames b ≡ total frames buddy_orders b.free_lists
unfolding free_frames
free_frames-total b = frames_below-total buddy_orders b.free_lists

pub block_size-zero : block_size 0 ≡ 4096
unfolding block_size
block_size-zero = refl
