-- ===== src/Config/Qemu.antt =====
-- `qemu_cfg` of xtask/src/main.rs: the settings of QEMU, from the file that kernel/build.rs reads too.
pub mod Agreement
use rusty_core.Prelude.{
  ℕ, ◌+◌, Bool, true, false, not, ◌||◌, Option, none, some, List, [], ◌∷◌, if◌then◌else◌, ◌==◌,
}
use rusty_core.Config.{trim}
use rusty_core.Config.Text.{
  codes, same_text, lines, before, split_once, starts_with, trim_matches, is_quote,
}

abbrev pub qemu_header : List ℕ
qemu_header = codes "[qemu]"

-- The loop goes on with a value of `in_qemu`, or returns.
pub data Scan : Type 0 where
  looking : Bool → Scan
  found : List ℕ → Scan

-- A line under the header.
unfoldable pub look : List ℕ → List ℕ → Scan
unfolding trim
look key line = elim (split_once 61 (trim (before 35 line))) [
  | none ↦ Scan.looking true
  | some (k, v) ↦
      if same_text (trim k) key
      then Scan.found (trim_matches is_quote (trim v))
      else Scan.looking true
]

unfoldable pub scan_line : List ℕ → Bool → List ℕ → Scan
unfolding look trim
scan_line key in_qemu raw =
    let line = trim raw in
    if same_text line [] || starts_with 35 line
    then Scan.looking in_qemu
    else if starts_with 91 line
    then Scan.looking (same_text line qemu_header)
    else if not in_qemu
    then Scan.looking false
    else look key line

unfoldable pub scan : List ℕ → Bool → List (List ℕ) → Option (List ℕ)
unfolding scan_line
scan key in_qemu [] = none
scan key in_qemu (raw ∷ rest) = elim (scan_line key in_qemu raw) [
  | Scan.found v ↦ some v
  | Scan.looking on ↦ scan key on rest
]

unfoldable pub qemu_cfg : List ℕ → List ℕ → List ℕ → List ℕ
unfolding scan lines
qemu_cfg text key fallback = elim (scan key false (lines text)) [ none ↦ fallback | some v ↦ v ]
