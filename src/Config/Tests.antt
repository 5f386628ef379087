-- ===== src/Config/Tests.antt =====
-- The configured stack size, and the instances of the theorems on sizes.
use rusty_core.Prelude.{ℕ, ◌≡◌, refl, none, some, List}
use rusty_core.Prelude.Vecs.{push, pop}
use rusty_core.Config.{
  parse_size_bytes, trim, trim_start, trim_end_matches, sized, strip_suffix, scaled, parse_u64,
  unsigned, digits_from,
}
use rusty_core.Config.Text.{codes}
use rusty_core.Config.Sizes.{parse_size_bytes-trailing_b}

abbrev text_128 : List ℕ
text_128 = codes "128"

-- `stack_size = "128K"` gives the 131072 bytes of Task/Stack.
stack_size_read : parse_size_bytes (codes "128K") ≡ some 131072
unfolding parse_size_bytes trim trim_start trim_end_matches sized strip_suffix scaled parse_u64
    unsigned digits_from pop
stack_size_read = refl

-- The letters in the order that the documentation does not give are accepted.
swapped_read : parse_size_bytes (codes "128BK") ≡ some 131072
unfolding parse_size_bytes trim trim_start trim_end_matches sized strip_suffix scaled parse_u64
    unsigned digits_from pop
swapped_read = refl

parse_size_bytes-trailing_b_example : parse_size_bytes (push (codes "128K") 66) ≡ none
parse_size_bytes-trailing_b_example = parse_size_bytes-trailing_b (codes "128K")
