-- ===== src/Serial/Sent.antt =====
-- What reaches the terminal.
use mathlib.Core.List.{append-nil, append_assoc}
use rusty_core.Prelude.{
  ℕ, zero, suc, ◌+◌, ◌<◌, ◌≡◌, ◌≢◌, bit_and, refl, sym, ap, ◌∙◌, inl, inr, Bool, false, not, ◌&&◌,
  List, [], ◌∷◌, ◌++◌, if◌then◌else◌, ◌==◌, ==_iff, eq-false, Bool-cases, done, ◌>>=◌, arith,
}
use rusty_core.Prelude.Vecs.{push}
use rusty_core.Serial.{Line, write_byte, write_str}

abbrev starts_line_feed : List ℕ → Bool
starts_line_feed [] = false
starts_line_feed (b ∷ bytes) = b == b'\n'

-- A terminal takes a carriage return and the line feed behind it for one end of line.
pub displayed : List ℕ → List ℕ
displayed [] = []
displayed (b ∷ bytes) =
    let rest = displayed bytes in if (b == b'\r') && starts_line_feed bytes then rest else b ∷ rest

-- The line feeds that no carriage return precedes; the flag says whether the byte before was one.
pub bare : Bool → List ℕ → ℕ
bare returned [] = 0
bare returned (b ∷ bytes) =
    (if (b == b'\n') && not returned then 1 else 0) + bare (b == b'\r') bytes

framed : List ℕ → List ℕ
framed [] = []
framed (b ∷ bytes) = (if b == b'\n' then b'\r' ∷ b ∷ framed bytes else b ∷ framed bytes)

framed-starts : (bytes : List ℕ) → starts_line_feed (framed bytes) ≡ false
unfolding framed
framed-starts [] = refl
framed-starts (b ∷ bytes) = ground arith

displayed-framed : (bytes : List ℕ) → displayed (framed bytes) ≡ bytes
unfolding displayed framed
displayed-framed [] = refl
displayed-framed (b ∷ bytes) = elim (Bool-cases (b == b'\n')) [
  | inl e ↦ rw ((==_iff b b'\n').0 e) (ap (λ (l : List ℕ). b'\n' ∷ l) (displayed-framed bytes))
  | inr e ↦ rw e (ground (arith, framed-starts bytes, displayed-framed bytes))
]

bare-framed : (returned : Bool) (bytes : List ℕ) → bare returned (framed bytes) ≡ 0
unfolding bare framed
bare-framed returned [] = refl
bare-framed returned (b ∷ bytes) =
    ground (arith, bare-framed (b == b'\r') bytes, bare-framed false bytes)

regroup : (xs : List ℕ) (a : ℕ) (ys : List ℕ) → push xs a ++ ys ≡ xs ++ (a ∷ ys)
unfolding push
regroup xs a ys = append_assoc xs (a ∷ []) ys

module _ (lsr : ℕ → ℕ) (polls : ℕ) where
  -- Within `polls` reads the transmitter is empty.
  abbrev pub IsServed : Type 0
  IsServed = (n : ℕ) → (m : ℕ) × (m < polls) × (bit_and (lsr (n + m)) 0x20 ≢ 0)

  write_byte-sends :
      (m fuel at b : ℕ) (l : Line)
      → m < fuel
      → l.reads + m ≡ at
      → bit_and (lsr at) 0x20 ≢ 0
      → (n : ℕ) × (write_byte lsr fuel b l ≡ done (record { reads = n; sent = push l.sent b }))
  unfolding write_byte
  write_byte-sends m zero at b l lt here empty = absurd (omega arith)
  write_byte-sends zero (suc fuel) at b l lt here empty =
      let same : at ≡ l.reads = omega arith in
      (
        l.reads + 1,
        rw
            (
              write_byte,
              eq-false (bit_and (lsr l.reads) 0x20) 0
                  (λ z. empty (ap (λ (n : ℕ). bit_and (lsr n) 0x20) same ∙ z)),
            )
            refl,
      )
  write_byte-sends (suc m) (suc fuel) at b l lt here empty =
      elim (Bool-cases (bit_and (lsr l.reads) 0x20 == 0)) [
        | inl e ↦
            rw (write_byte, e)
              (write_byte-sends m fuel at b (record l { reads = l.reads + 1 }) (omega arith)
                (omega arith) empty)
        | inr e ↦ rw (write_byte, e) (l.reads + 1, refl)
      ]

  write_byte-served :
      (b : ℕ) (l : Line)
      → IsServed
      → (n : ℕ) × (write_byte lsr polls b l ≡ done (record { reads = n; sent = push l.sent b }))
  write_byte-served b l served =
      let (m, lt, empty) = served l.reads in
      write_byte-sends m polls (l.reads + m) b l lt refl empty

  write_str-framed :
      (bytes : List ℕ) (l : Line)
      → IsServed
      → (n : ℕ) × (write_str lsr polls bytes l
          ≡ done (record { reads = n; sent = l.sent ++ framed bytes }))
  unfolding write_str framed
  write_str-framed [] l served = (
    l.reads,
    ap (λ (bs : List ℕ). done (record { reads = l.reads; sent = bs })) (sym (append-nil l.sent)),
  )
  write_str-framed (b ∷ bytes) l served = elim (Bool-cases (b == b'\n')) [
    | inl e ↦
        let (n, returned) = write_byte-served b'\r' l served in
        let (n2, fed) =
          write_byte-served b (record { reads = n; sent = push l.sent b'\r' }) served in
        let (n3, rest) =
          write_str-framed bytes (record { reads = n2; sent = push (push l.sent b'\r') b })
            served in
        (
          n3,
          rw (e, write_str, returned, ◌>>=◌, fed, ◌>>=◌, rest)
              (ap (λ (bs : List ℕ). done (record { reads = n3; sent = bs }))
                (regroup (push l.sent b'\r') b (framed bytes)
                  ∙ regroup l.sent b'\r' (b ∷ framed bytes))),
        )
    | inr e ↦
        let (n2, fed) = write_byte-served b l served in
        let (n3, rest) =
          write_str-framed bytes (record { reads = n2; sent = push l.sent b }) served in
        (
          n3,
          rw (e, write_str, ◌>>=◌, fed, ◌>>=◌, rest)
              (ap (λ (bs : List ℕ). done (record { reads = n3; sent = bs }))
                (regroup l.sent b (framed bytes))),
        )
  ]

  -- When the transmitter becomes empty within `polls` reads again and again, every text is sent: behind what was
  -- sent before stands a sequence that the terminal displays as the text itself, and in which a carriage
  -- return precedes each line feed.
  pub write_str-displayed :
      (bytes : List ℕ) (l : Line)
      → IsServed
      → (n : ℕ) × (w : List ℕ) × (write_str lsr polls bytes l
          ≡ done (record { reads = n; sent = l.sent ++ w }))
        × (displayed w ≡ bytes)
        × (bare false w ≡ 0)
  write_str-displayed bytes l served =
      let (n, sent) = write_str-framed bytes l served in
      (n, framed bytes, sent, displayed-framed bytes, bare-framed false bytes)
