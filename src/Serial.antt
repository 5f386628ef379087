-- ===== src/Serial.antt =====
-- kernel/src/serial.rs: the polling driver of COM1. A port write is the port and the byte; `lsr n` is what the
-- line status register shows at its `n`-th read.
pub mod Sent
mod Tests
use rusty_core.Prelude.{
  ℕ, zero, suc, ◌+◌, bit_and, Bool, true, false, List, [], ◌∷◌, if◌then◌else◌, ◌==◌, Outcome, done,
  panics, running, ◌>>=◌,
}
use rusty_core.Prelude.Vecs.{push}

abbrev pub com1 : ℕ
com1 = 0x3F8

-- `init`: 115200 8-N-1, with the interrupts of the UART off.
abbrev pub init : List (ℕ × ℕ)
init =
    (com1 + 1, 0x00)
    ∷ (com1 + 3, 0x80)
    ∷ (com1, 0x01)
    ∷ (com1 + 1, 0x00)
    ∷ (com1 + 3, 0x03)
    ∷ (com1 + 2, 0xC7)
    ∷ (com1 + 4, 0x0B)
    ∷ []

-- The number of status reads so far, and the bytes sent, in order.
pub record Line : Type 0 where
  pub reads : ℕ
  pub sent : List ℕ

module _ (lsr : ℕ → ℕ) where
  -- `write_byte`: poll until the transmitter is empty. The loop of the source has no bound.
  unfoldable pub write_byte : ℕ → ℕ → Line → Outcome Line
  write_byte zero b l = running
  write_byte (suc polls) b l = elim (bit_and (lsr l.reads) 0x20 == 0) [
    | true ↦ write_byte polls b (record l { reads = l.reads + 1 })
    | false ↦ done (record { reads = l.reads + 1; sent = push l.sent b })
  ]

  unfoldable pub write_str : ℕ → List ℕ → Line → Outcome Line
  unfolding write_byte
  write_str polls [] l = done l
  write_str polls (b ∷ bytes) l = do
    l2 ← if b == b'\n' then write_byte polls b'\r' l else done l
    l3 ← write_byte polls b l2
    write_str polls bytes l3
