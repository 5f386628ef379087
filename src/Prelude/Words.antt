-- ===== src/Prelude/Words.antt =====
-- Machine words as native numbers: the operations of `u64` and `usize` that the source calls.
use Prim.Native.Nat.{ℕ, ◌+◌, ◌-◌, ◌*◌, ◌%◌, ◌^◌, min}
use mathlib.Core.Option.{Option, none, some}
use rusty_core.Prelude.Tests.{ltb, leb, ◌==◌, if◌then◌else◌}
use rusty_core.Prelude.Outcomes.{Outcome, done, panics}

abbrev pub u64_mod : ℕ
u64_mod = 2 ^ 64

abbrev pub u64_max : ℕ
u64_max = 2 ^ 64 - 1

-- `a.checked_add(b)`.
abbrev pub checked_add : ℕ → ℕ → Option ℕ
checked_add a b = if ltb (a + b) u64_mod then some (a + b) else none

-- `a + b` in the dev profile.
abbrev pub add_u64 : ℕ → ℕ → Outcome ℕ
add_u64 a b = if ltb (a + b) u64_mod then done (a + b) else panics

-- `a - b` in the dev profile.
abbrev pub sub_u64 : ℕ → ℕ → Outcome ℕ
sub_u64 a b = if leb b a then done (a - b) else panics

-- `a.saturating_add(b)` and `a.saturating_mul(b)`.
abbrev pub saturating_add : ℕ → ℕ → ℕ
saturating_add a b = min (a + b) u64_max

abbrev pub saturating_mul : ℕ → ℕ → ℕ
saturating_mul a b = min (a * b) u64_max

-- The least multiple of `n` from `a` on, before the check for overflow.
abbrev pub align_up : ℕ → ℕ → ℕ
align_up a n = if a % n == 0 then a else a + (n - a % n)

-- `a.checked_next_multiple_of(n)`, and `a.next_multiple_of(n)` in the dev profile.
abbrev pub checked_next_multiple_of : ℕ → ℕ → Option ℕ
checked_next_multiple_of a n = if ltb (align_up a n) u64_mod then some (align_up a n) else none

abbrev pub next_multiple_of : ℕ → ℕ → Outcome ℕ
next_multiple_of a n = if ltb (align_up a n) u64_mod then done (align_up a n) else panics
