-- ===== src/Config/Sizes.antt =====
-- Which sizes are read, and that a trailing B is not.
use rusty_core.Prelude.{
  ℕ, ◌+◌, ◌*◌, ◌≤◌, ◌<◌, ◌≡◌, refl, ap, ◌∙◌, Bool, false, Option, none, some, List, [], ◌∷◌, map,
  arith, if◌then◌else◌, ◌==◌, u64_mod, lt→ltb, eq-false, Bool-cases, checked_add, ==_iff, inl, inr,
}
use rusty_core.Prelude.Vecs.{push, pop, All}
use rusty_core.Config.{
  is_space, is_b, checked_mul, trim_start, trim_end_matches, trim, strip_suffix, digit, digits_from,
  unsigned, parse_u64, scaled, sized, parse_size_bytes,
}

pop-push : (cs : List ℕ) (c : ℕ) → pop (push cs c) ≡ some (c, cs)
unfolding pop push
pop-push [] c = refl
pop-push (d ∷ cs) c = rw (pop-push cs c)

trim_end_matches-push :
    (p : ℕ → Bool) (cs : List ℕ) (c : ℕ) → p c ≡ false → trim_end_matches p (push cs c) ≡ push cs c
unfolding trim_end_matches push
trim_end_matches-push p [] c e = rw e
trim_end_matches-push p (d ∷ []) c e = rw (e, trim_end_matches)
trim_end_matches-push p (d ∷ d' ∷ cs) c e = rw (trim_end_matches-push p (d' ∷ cs) c e)

-- Trimming keeps a last character that is not white space.
trim_start-push :
    (cs : List ℕ) (c : ℕ)
    → is_space c ≡ false
    → (ds : List ℕ) × (trim_start (push cs c) ≡ push ds c)
unfolding trim_start push
trim_start-push [] c e = ([], rw e)
trim_start-push (d ∷ cs) c e = elim (Bool-cases (is_space d)) [
  | inl s ↦ let (ds, rest) = trim_start-push cs c e in (ds, rw s rest)
  | inr s ↦ (d ∷ cs, rw s)
]

-- A list of digits is refused when its rest is, whatever value stands before.
digits_from-cons :
    (acc d : ℕ) (cs : List ℕ)
    → ((n : ℕ) → digits_from n cs ≡ none)
    → digits_from acc (d ∷ cs) ≡ none
unfolding digits_from
digits_from-cons acc d cs h = at (digit d)
  where
    add : (o : Option ℕ) → (elim o [ none ↦ none | some next ↦ digits_from next cs ]) ≡ none
    add none = refl
    add (some next) = h next

    scale :
        (v : ℕ) (o : Option ℕ)
        → (elim o [
          | none ↦ none
          | some tens ↦ elim (checked_add tens v) [ none ↦ none | some next ↦ digits_from next cs ]
        ])
          ≡ none
    scale v none = refl
    scale v (some tens) = add (checked_add tens v)

    at :
        (o : Option ℕ)
        → (elim o [
          | none ↦ none
          | some v ↦ elim (checked_mul acc 10) [
            | none ↦ none
            | some tens ↦ elim (checked_add tens v) [
              | none ↦ none
              | some next ↦ digits_from next cs
            ]
          ]
        ])
          ≡ none
    at none = refl
    at (some v) = scale v (checked_mul acc 10)

digits_from-push :
    (acc : ℕ) (cs : List ℕ) (c : ℕ) → digit c ≡ none → digits_from acc (push cs c) ≡ none
unfolding push digits_from
digits_from-push acc [] c e = rw (e, digits_from)
digits_from-push acc (d ∷ cs) c e =
    digits_from-cons acc d (push cs c) (λ n. digits_from-push n cs c e)

unsigned-push : (cs : List ℕ) (c : ℕ) → digit c ≡ none → unsigned (push cs c) ≡ none
unfolding unsigned push
unsigned-push [] c e = digits_from-push 0 [] c e
unsigned-push (d ∷ cs) c e = digits_from-push 0 (d ∷ cs) c e

parse_u64-push :
    (cs : List ℕ) (c : ℕ) → digit c ≡ none → (c == 43) ≡ false → parse_u64 (push cs c) ≡ none
unfolding parse_u64 push
parse_u64-push [] c e plus = rw plus (unsigned-push [] c e)
parse_u64-push (d ∷ cs) c e plus = elim (Bool-cases (d == 43)) [
  | inl s ↦ rw s (unsigned-push cs c e)
  | inr s ↦ rw s (unsigned-push (d ∷ cs) c e)
]

strip_suffix-other :
    (upper lower : ℕ) (cs : List ℕ) (c : ℕ)
    → (c == upper) ≡ false
    → (c == lower) ≡ false
    → strip_suffix upper lower (push cs c) ≡ none
unfolding strip_suffix
strip_suffix-other upper lower cs c a b = rw (pop-push cs c, strip_suffix) (rw (a, b))

strip_suffix-unit :
    (upper lower : ℕ) (cs : List ℕ) → strip_suffix upper lower (push cs upper) ≡ some cs
unfolding strip_suffix
strip_suffix-unit upper lower cs =
    rw (pop-push cs upper, strip_suffix) (rw ((==_iff upper upper).1 refl))

sized-trailing_b : (cs : List ℕ) → sized (push cs 66) ≡ none
unfolding sized scaled
sized-trailing_b cs =
    rw (strip_suffix-other 75 107 cs 66 refl refl, sized)
      (rw (strip_suffix-other 77 109 cs 66 refl refl) (
        rw (strip_suffix-other 71 103 cs 66 refl refl)
          (rw (parse_u64-push cs 66 refl refl, scaled))))

-- A value that ends in the letter B, such as 128KB, is rejected, although the comment on
-- `parse_size_bytes` promises an optional trailing B.
pub parse_size_bytes-trailing_b : (cs : List ℕ) → parse_size_bytes (push cs 66) ≡ none
unfolding parse_size_bytes trim
parse_size_bytes-trailing_b cs =
    let (ds, trimmed) = trim_start-push cs 66 refl in
    ap (λ (l : List ℕ). sized (trim_start l)) (trim_end_matches-push is_space cs 66 refl)
    ∙ ap sized trimmed
    ∙ sized-trailing_b ds

-- The number that decimal digits write, after those with the value `acc`.
abbrev pub value : ℕ → List ℕ → ℕ
value acc [] = acc
value acc (d ∷ ds) = value (acc * 10 + d) ds

abbrev pub AreDigits : List ℕ → Type 0
AreDigits ds = All (λ d. d < 10) ds

abbrev pub chars : List ℕ → List ℕ
chars ds = map (λ d. d + 48) ds

value-le : (acc : ℕ) (ds : List ℕ) → acc ≤ value acc ds
value-le acc [] = omega arith
value-le acc (d ∷ ds) = omega (arith, value-le (acc * 10 + d) ds)

digits_from-value :
    (acc : ℕ) (ds : List ℕ)
    → AreDigits ds
    → value acc ds < u64_mod
    → digits_from acc (chars ds) ≡ some (value acc ds)
unfolding digits_from
digits_from-value acc [] h small = refl
digits_from-value acc (d ∷ ds) h small =
    ground (arith, digits_from-value (acc * 10 + d) ds h.1 small, value-le (acc * 10 + d) ds)

trim_end_matches-digits :
    (p : ℕ → Bool) (ds : List ℕ)
    → ((d : ℕ) → d < 10 → p (d + 48) ≡ false)
    → AreDigits ds
    → trim_end_matches p (chars ds) ≡ chars ds
unfolding trim_end_matches
trim_end_matches-digits p [] h ok = refl
trim_end_matches-digits p (d ∷ []) h ok = rw (h d ok.0)
trim_end_matches-digits p (d ∷ e ∷ ds) h ok =
    rw (trim_end_matches-digits p (e ∷ ds) h ok.1, trim_end_matches)

-- A number with at least one digit, as the script reads it.
module _ (d : ℕ) (ds : List ℕ) (ok : AreDigits (d ∷ ds)) where
  abbrev written : List ℕ
  written = chars (d ∷ ds)

  abbrev amount : ℕ
  amount = value 0 (d ∷ ds)

  first_digit : d < 10
  first_digit = ok.0

  parsed : amount < u64_mod → parse_u64 written ≡ some amount
  unfolding parse_u64 unsigned
  parsed small =
      rw (eq-false (d + 48) 43 (λ e. omega arith), parse_u64)
        (digits_from-value 0 (d ∷ ds) ok small)

  scaled-written :
      (mult : ℕ)
      → amount < u64_mod
      → amount * mult < u64_mod
      → scaled written mult ≡ some (amount * mult)
  unfolding scaled
  scaled-written mult small fits =
      rw (parsed small, scaled) (rw (lt→ltb (amount * mult) u64_mod fits))

  not_space : is_space (d + 48) ≡ false
  not_space = ground (arith, first_digit)

  digits_not_space : (e : ℕ) → e < 10 → is_space (e + 48) ≡ false
  digits_not_space e h = ground arith

  digits_not_b : (e : ℕ) → e < 10 → is_b (e + 48) ≡ false
  digits_not_b e h = ground arith

  -- The value with its unit, trimmed.
  trim-unit : (u : ℕ) → is_space u ≡ false → trim (push written u) ≡ push written u
  unfolding trim trim_start push
  trim-unit u e =
      ap trim_start (trim_end_matches-push is_space written u e)
      ∙ ap (λ (b : Bool). if b then trim_start (push (chars ds) u) else push written u) not_space

  unit_value :
      (mult : ℕ)
      → amount < u64_mod
      → amount * mult < u64_mod
      → scaled (trim_end_matches is_b written) mult ≡ some (amount * mult)
  unit_value mult small fits =
      ap (λ (l : List ℕ). scaled l mult) (trim_end_matches-digits is_b (d ∷ ds) digits_not_b ok)
      ∙ scaled-written mult small fits

  -- A number of digits with the unit K, M or G is read as so many bytes, as long as they fit 64 bits.
  pub parse_size_bytes-units :
      amount * 1073741824 < u64_mod
      → (parse_size_bytes (push written 75) ≡ some (amount * 1024))
        × (parse_size_bytes (push written 77) ≡ some (amount * 1048576))
        × (parse_size_bytes (push written 71) ≡ some (amount * 1073741824))
  unfolding parse_size_bytes sized
  parse_size_bytes-units fits = (
    ap sized (trim-unit 75 refl)
        ∙ rw (strip_suffix-unit 75 107 written, sized)
            (unit_value 1024 (omega arith) (omega arith)),
    ap sized (trim-unit 77 refl)
        ∙ rw (strip_suffix-other 75 107 written 77 refl refl, sized)
            (rw (strip_suffix-unit 77 109 written)
              (unit_value 1048576 (omega arith) (omega arith))),
    ap sized (trim-unit 71 refl)
        ∙ rw (strip_suffix-other 75 107 written 71 refl refl, sized)
            (rw (strip_suffix-other 77 109 written 71 refl refl) (
              rw (strip_suffix-unit 71 103 written)
                (unit_value 1073741824 (omega arith) (omega arith)))),
  )
