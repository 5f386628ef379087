-- ===== src/Config.antt =====
-- `parse_size_bytes` of kernel/build.rs, on the characters of the value. The calls of the standard
-- library are written out: `trim` on the white space of ASCII, and `parse::<u64>`.
pub mod Sizes
pub mod Text
pub mod Reader
pub mod Digits
pub mod Qemu
mod Tests
mod ReaderTests
use rusty_core.Prelude.{
  ℕ, zero, suc, ◌+◌, ◌-◌, ◌*◌, ◌≤◌, ◌<◌, Bool, true, false, ◌&&◌, ◌||◌, Option, none, some, List,
  [], ◌∷◌, if◌then◌else◌, ltb, leb, ◌==◌, u64_mod, checked_add,
}
use rusty_core.Prelude.Vecs.{pop}

abbrev pub is_space : ℕ → Bool
is_space c = (c == 32) || (leb 9 c && leb c 13)

abbrev pub is_b : ℕ → Bool
is_b c = (c == 66) || (c == 98)

abbrev pub checked_mul : ℕ → ℕ → Option ℕ
checked_mul a b = if ltb (a * b) u64_mod then some (a * b) else none

unfoldable pub trim_start : List ℕ → List ℕ
trim_start [] = []
trim_start (c ∷ cs) = let rest = trim_start cs in if is_space c then rest else c ∷ cs

-- `trim_end_matches`: the front up to the last character that does not match.
unfoldable pub trim_end_matches : (ℕ → Bool) → List ℕ → List ℕ
trim_end_matches p [] = []
trim_end_matches p (c ∷ cs) = elim (trim_end_matches p cs) [
  | [] ↦ if p c then [] else c ∷ []
  | d ∷ ds ↦ c ∷ d ∷ ds
]

unfoldable pub trim : List ℕ → List ℕ
unfolding trim_start trim_end_matches
trim cs = trim_start (trim_end_matches is_space cs)

-- `strip_suffix([upper, lower])`.
unfoldable pub strip_suffix : ℕ → ℕ → List ℕ → Option (List ℕ)
strip_suffix upper lower cs = elim (pop cs) [
  | none ↦ none
  | some (last, front) ↦ if (last == upper) || (last == lower) then some front else none
]

abbrev pub digit : ℕ → Option ℕ
digit c = if leb 48 c && leb c 57 then some (c - 48) else none

-- The digits of a `u64`, with the value of those before.
unfoldable pub digits_from : ℕ → List ℕ → Option ℕ
digits_from acc [] = some acc
digits_from acc (c ∷ cs) = elim (digit c) [
  | none ↦ none
  | some d ↦ elim (checked_mul acc 10) [
    | none ↦ none
    | some tens ↦ elim (checked_add tens d) [ none ↦ none | some next ↦ digits_from next cs ]
  ]
]

-- At least one digit.
unfoldable pub unsigned : List ℕ → Option ℕ
unfolding digits_from
unsigned [] = none
unsigned (c ∷ cs) = digits_from 0 (c ∷ cs)

-- `parse::<u64>`: an optional plus sign, and digits.
unfoldable pub parse_u64 : List ℕ → Option ℕ
unfolding unsigned
parse_u64 [] = none
parse_u64 (c ∷ cs) = if c == 43 then unsigned cs else unsigned (c ∷ cs)

unfoldable pub scaled : List ℕ → ℕ → Option ℕ
unfolding parse_u64
scaled digits mult = elim (parse_u64 digits) [ none ↦ none | some n ↦ checked_mul n mult ]

-- The unit, tried in the order of the source.
unfoldable pub sized : List ℕ → Option ℕ
unfolding strip_suffix scaled trim_end_matches
sized v = elim (strip_suffix 75 107 v) [
  | some n ↦ scaled (trim_end_matches is_b n) 1024
  | none ↦ elim (strip_suffix 77 109 v) [
    | some n ↦ scaled (trim_end_matches is_b n) (1024 * 1024)
    | none ↦ elim (strip_suffix 71 103 v) [
      | some n ↦ scaled (trim_end_matches is_b n) (1024 * 1024 * 1024)
      | none ↦ scaled v 1
    ]
  ]
]

unfoldable pub parse_size_bytes : List ℕ → Option ℕ
unfolding trim sized
parse_size_bytes v = sized (trim v)
