-- ===== src/Config/Digits.antt =====
-- The sizes that kernel/build.rs prints, and the kernel's constants that parse them.
use rusty_core.Prelude.{
  ℕ, zero, suc, ◌+◌, ◌-◌, ◌*◌, ◌/◌, ◌%◌, ◌<◌, ◌≡◌, ap, ◌∙◌, Bool, true, false, List, [], ◌∷◌, ◌++◌,
  if◌then◌else◌, ltb, Bool-cases, inl, inr, Outcome, done, panics, ◌>>◌, assert, arith, u64_mod,
}
use rusty_core.Config.Text.{digits_of, decimal}
use rusty_core.Task.Stack.{parse_digits, parse_stack_bytes}
use rusty_core.Memory.Mapping.{parse_heap_bytes}

-- The first number with more digits.
limit : ℕ → ℕ
limit zero = 1
limit (suc digits) = limit digits * 10

-- One digit behind those that have been read.
digit_read :
    (d n : ℕ) → d < 10 → n * 10 + d < u64_mod → parse_digits ((d + 48) ∷ []) n ≡ done (n * 10 + d)
unfolding parse_digits
digit_read d n small fits = ground arith

-- The two tests of a digit.
abbrev tested : Bool → Bool → Outcome ℕ → Outcome ℕ
tested is_digit fits rest = assert is_digit >> (if fits then rest else panics)

parse_digits-append :
    (front back : List ℕ) (n m : ℕ)
    → parse_digits front n ≡ done m
    → parse_digits (front ++ back) n ≡ parse_digits back m
unfolding parse_digits
parse_digits-append [] back n m e = ap (parse_digits back) (inj e)
  where
    inj : {a b : ℕ} → done a ≡ done b → a ≡ b
    inj e = cc
parse_digits-append (b ∷ front) back n m e =
    let next : ℕ = n * 10 + (b + 256 - 48) % 256 in
    at (ltb ((b + 256 - 48) % 256) 10) (ltb next u64_mod) (parse_digits-append front back next m) e
  where
    at :
        {o o2 : Outcome ℕ} (is_digit fits : Bool)
        → (o ≡ done m → o2 ≡ parse_digits back m)
        → tested is_digit fits o ≡ done m
        → tested is_digit fits o2 ≡ parse_digits back m
    at true true again e = again e
    at true false again e = cc
    at false fits again e = cc

digits_of-read :
    (fuel n : ℕ) → n < limit fuel → n < u64_mod → parse_digits (digits_of fuel n) 0 ≡ done n
unfolding digits_of limit parse_digits
digits_of-read zero n below fits = ap done (omega arith)
digits_of-read (suc fuel) n below fits = elim (Bool-cases (ltb n 10)) [
  | inl e ↦
      rw (e, digits_of)
        (digit_read n 0 (ground arith) (omega (arith, fits)) ∙ ap done (omega arith))
  | inr e ↦
      rw (e, digits_of)
        (parse_digits-append (digits_of fuel (n / 10)) ((n % 10 + 48) ∷ []) 0 (n / 10)
            (digits_of-read fuel (n / 10) (omega arith) (omega arith))
          ∙ digit_read (n % 10) (n / 10) (omega arith) (omega arith)
          ∙ ap done (omega arith))
]

-- Both sizes survive the way through the environment: what the build script prints of a 64-bit
-- number, the kernel's constants parse to that number, without a failed assertion.
pub decimal-parse_digits :
    (n : ℕ)
    → n < u64_mod
    → (parse_stack_bytes (decimal n) ≡ done n) × (parse_heap_bytes (decimal n) ≡ done n)
unfolding decimal limit
decimal-parse_digits n fits = let read = digits_of-read 20 n (omega arith) fits in (read, read)
