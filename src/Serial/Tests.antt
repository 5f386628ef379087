-- ===== src/Serial/Tests.antt =====
-- Texts on a line whose transmitter is empty at every third read.
use rusty_core.Prelude.{
  ℕ, ◌+◌, ◌-◌, ◌%◌, ◌≡◌, ◌≢◌, refl, bit_and, false, List, [], ◌∷◌, ◌++◌, if◌then◌else◌, ◌==◌,
  ==_iff, done, arith,
}
use rusty_core.Prelude.Vecs.{push}
use rusty_core.Serial.{Line, write_str}
use rusty_core.Serial.Sent.{IsServed, displayed, bare, write_str-displayed}

abbrev lsr : ℕ → ℕ
lsr n = if n % 3 == 0 then 0x60 else 0x00

empty_third : (n : ℕ) → n % 3 ≡ 0 → bit_and (lsr n) 0x20 ≢ 0
empty_third n third = rw ((==_iff (n % 3) 0).1 third) (λ z. omega arith)

lsr-IsServed : IsServed lsr 3
lsr-IsServed n = ((3 - n % 3) % 3, omega arith, empty_third (n + (3 - n % 3) % 3) (omega arith))

abbrev idle : Line
idle = record { reads = 0; sent = [] }

-- "ok\n"
abbrev text : List ℕ
text = b'o' ∷ b'k' ∷ b'\n' ∷ []

sends_return :
    write_str lsr 3 text idle
    ≡ done (record { reads = 10; sent = b'o' ∷ b'k' ∷ b'\r' ∷ b'\n' ∷ [] })
unfolding write_str push
sends_return = refl

write_str-displayed_example :
    (n : ℕ) × (w : List ℕ) × (write_str lsr 3 text idle
      ≡ done (record { reads = n; sent = [] ++ w }))
    × (displayed w ≡ text)
    × (bare false w ≡ 0)
write_str-displayed_example = write_str-displayed lsr 3 text idle lsr-IsServed
