-- ===== src/Config/Text.antt =====
-- The calls of the standard library on text that kernel/build.rs and xtask/src/main.rs make. A text is
-- its characters; the changes of case are those of ASCII.
use Prim.Native.Char.{code}
use Prim.Native.String.{String}
use rusty_core.Prelude.{
  ℕ, zero, suc, ◌+◌, ◌-◌, ◌/◌, ◌%◌, Bool, true, false, ◌&&◌, Option, none, some, List, [], ◌∷◌,
  ◌++◌, if◌then◌else◌, ltb, leb, ◌==◌,
}
use rusty_core.Config.{trim_end_matches}

abbrev pub same_text : List ℕ → List ℕ → Bool
same_text [] [] = true
same_text [] (d ∷ ds) = false
same_text (c ∷ cs) [] = false
same_text (c ∷ cs) (d ∷ ds) = (c == d) && same_text cs ds

-- One character more on the first line.
abbrev pub extend : ℕ → List (List ℕ) → List (List ℕ)
extend c [] = (c ∷ []) ∷ []
extend c (line ∷ rest) = (c ∷ line) ∷ rest

-- `lines`: what stands behind the last line feed is a line only when it is not empty. The carriage
-- return before a line feed stays: both readers trim it off.
unfoldable pub lines : List ℕ → List (List ℕ)
lines [] = []
lines (c ∷ cs) = let rest = lines cs in if c == 10 then [] ∷ rest else extend c rest

-- `split(sep).next()`: the text before the first `sep`.
unfoldable pub before : ℕ → List ℕ → List ℕ
before sep [] = []
before sep (c ∷ cs) = let rest = before sep cs in if c == sep then [] else c ∷ rest

-- `split_once(sep)`.
unfoldable pub split_once : ℕ → List ℕ → Option (List ℕ × List ℕ)
split_once sep [] = none
split_once sep (c ∷ cs) =
    let rest = split_once sep cs in
    if c == sep then some ([], cs) else elim rest [ none ↦ none | some (k, v) ↦ some (c ∷ k, v) ]

abbrev pub starts_with : ℕ → List ℕ → Bool
starts_with c [] = false
starts_with c (d ∷ ds) = d == c

unfoldable pub trim_start_matches : (ℕ → Bool) → List ℕ → List ℕ
trim_start_matches p [] = []
trim_start_matches p (c ∷ cs) = let rest = trim_start_matches p cs in if p c then rest else c ∷ cs

unfoldable pub trim_matches : (ℕ → Bool) → List ℕ → List ℕ
unfolding trim_start_matches trim_end_matches
trim_matches p cs = trim_start_matches p (trim_end_matches p cs)

abbrev pub is_quote : ℕ → Bool
is_quote c = c == 34

abbrev pub to_upper : ℕ → ℕ
to_upper c = if leb 97 c && leb c 122 then c - 32 else c

abbrev pub to_lower : ℕ → ℕ
to_lower c = if leb 65 c && leb c 90 then c + 32 else c

-- The decimal digits of a number that has at most `fuel` of them.
unfoldable pub digits_of : ℕ → ℕ → List ℕ
digits_of zero n = []
digits_of (suc fuel) n =
    let front = digits_of fuel (n / 10) in
    if ltb n 10 then (n + 48) ∷ [] else front ++ ((n % 10 + 48) ∷ [])

-- `{n}` for a `u64`, which has twenty digits at most.
unfoldable pub decimal : ℕ → List ℕ
unfolding digits_of
decimal n = digits_of 20 n

-- The characters of a text of ASCII.
abbrev pub codes : String → List ℕ
codes String.[] = []
codes (String.◌∷◌ c s) = code c ∷ codes s
