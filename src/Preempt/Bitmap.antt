-- ===== src/Preempt/Bitmap.antt =====
-- The occupancy bitmap `SLOT_USED` of kernel/src/preempt.rs, a `u8`, one bit for each slot. Its
-- operations are checked on every byte and slot.
use Prim.Native.Nat.{bit_and-bitwise}
use rusty_core.Prelude.Tables.{every, every-at, same, same_sound}
use rusty_core.Prelude.{
  ℕ, ◌-◌, ◌/◌, ◌%◌, ◌^◌, ◌<◌, ◌≡◌, refl, bit_and, bit_or, Bool, true, false, ◌&&◌, ◌||◌, not, arith,
  ltb, ◌==◌,
}

-- `used & (1 << idx) != 0`, as an `if` reads it.
unfoldable pub occupied : ℕ → ℕ → Bool
occupied used idx = not (bit_and used (2 ^ idx) == 0)

-- `SLOT_USED.fetch_or(1 << idx)`.
unfoldable pub occupy : ℕ → ℕ → ℕ
occupy used idx = bit_or used (2 ^ idx)

-- `SLOT_USED.fetch_and(!(1 << idx))`.
unfoldable pub vacate : ℕ → ℕ → ℕ
vacate used idx = bit_and used (255 - 2 ^ idx)

-- The laws of the bitmap at one byte and two slots.
laws_at : ℕ → ℕ → ℕ → Bool
laws_at used i j =
    same (occupied (occupy used i) j) ((i == j) || occupied used j)
    && (same (occupied (vacate used i) j) (not (i == j) && occupied used j)
        && (ltb (occupy used i) 256 && ltb (vacate used i) 256))

laws_table : every (λ used. every (λ i. every (λ j. laws_at used i j) 8) 8) 256 ≡ true
unfolding every laws_at occupied occupy vacate same
laws_table = refl

laws : (used i j : ℕ) → used < 256 → i < 8 → j < 8 → laws_at used i j ≡ true
laws used i j hu hi hj = every-at _ 8 hj (every-at _ 8 hi (every-at _ 256 hu laws_table))

pub occupied-occupy :
    (used i j : ℕ)
    → used < 256
    → i < 8
    → j < 8
    → occupied (occupy used i) j ≡ ((i == j) || occupied used j)
unfolding laws_at
occupied-occupy used i j hu hi hj = same_sound _ _ (ground (arith, laws used i j hu hi hj))

pub occupied-vacate :
    (used i j : ℕ)
    → used < 256
    → i < 8
    → j < 8
    → occupied (vacate used i) j ≡ (not (i == j) && occupied used j)
unfolding laws_at
occupied-vacate used i j hu hi hj = same_sound _ _ (ground (arith, laws used i j hu hi hj))

pub occupy-lt : (used i : ℕ) → used < 256 → i < 8 → occupy used i < 256
unfolding laws_at
occupy-lt used i hu hi = ground (arith, laws used i 0 hu hi (omega arith))

pub vacate-lt : (used i : ℕ) → used < 256 → i < 8 → vacate used i < 256
unfolding laws_at
vacate-lt used i hu hi = ground (arith, laws used i 0 hu hi (omega arith))

pub occupied-none : (i : ℕ) → occupied 0 i ≡ false
unfolding occupied
occupied-none i = rw (bit_and-bitwise 0 (2 ^ i))

-- `bt ecx, eax`: the carry flag.
abbrev pub bit_test : ℕ → ℕ → Bool
bit_test word bit = word / 2 ^ (bit % 32) % 2 == 1

bit_test_table : every (λ used. every (λ i. same (bit_test used i) (occupied used i)) 8) 256 ≡ true
unfolding every occupied same
bit_test_table = refl

-- The stub's test and the Rust side read the same bit.
pub bit_test-occupied : (used i : ℕ) → used < 256 → i < 8 → bit_test used i ≡ occupied used i
bit_test-occupied used i hu hi = same_sound _ _ (every-at _ 8 hi (every-at _ 256 hu bit_test_table))
