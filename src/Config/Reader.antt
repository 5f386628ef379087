-- ===== src/Config/Reader.antt =====
-- `main` of kernel/build.rs: the configuration becomes variables of the compiler's environment, and has
-- to agree with the selected features.
pub mod Onward
pub mod Choices
pub mod Noted
pub mod Entries
use rusty_core.Prelude.{
  ℕ, ◌+◌, ◌*◌, Bool, true, false, not, ◌&&◌, ◌||◌, Option, none, some, List, [], ◌∷◌, ◌++◌, map,
  if◌then◌else◌, ltb, ◌==◌, u64_mod, Outcome, done, panics, running, ◌>>=◌, ◌>>◌,
}
use rusty_core.Prelude.Vecs.{push}
use rusty_core.Config.{trim, strip_suffix, parse_u64, parse_size_bytes}
use rusty_core.Config.Text.{
  codes, same_text, lines, before, split_once, starts_with, trim_matches, is_quote, to_upper,
  to_lower, decimal,
}

-- A variable and its value, as one line `cargo:rustc-env=` sets them.
abbrev pub Setting : Type 0
Setting = List ℕ × List ℕ

-- The variables of `main` that the loop writes, and the lines that it has printed.
pub record Reader : Type 0 where
  pub section : List ℕ
  pub frame_allocator : Option (List ℕ)
  pub sched : Option (List ℕ)
  pub env : List Setting

abbrev pub first_reader : Reader
first_reader = record { section = []; frame_allocator = none; sched = none; env = [] }

abbrev pub prefix : List ℕ
prefix = codes "KERNEL_CONFIG_"

abbrev pub bytes : List ℕ
bytes = codes "BYTES"

abbrev pub heap_size : List ℕ
heap_size = codes "HEAP_SIZE_"

abbrev pub heap_size_kb : List ℕ
heap_size_kb = heap_size ++ codes "KB"

abbrev pub stack_size : List ℕ
stack_size = codes "STACK_SIZE"

abbrev pub memory : List ℕ
memory = codes "MEMORY"

abbrev pub frame_allocator_key : List ℕ
frame_allocator_key = codes "FRAME_ALLOCATOR"

abbrev pub sched_section : List ℕ
sched_section = codes "SCHED"

abbrev pub default_key : List ℕ
default_key = codes "DEFAULT"

abbrev pub bump : List ℕ
bump = codes "bump"

abbrev pub buddy : List ℕ
buddy = codes "buddy"

abbrev pub rr : List ℕ
rr = codes "rr"

abbrev pub cfs : List ℕ
cfs = codes "cfs"

-- `replace(['-', '.'], "_")`, then upper case.
unfoldable pub name_of : List ℕ → List ℕ
name_of cs = map (λ c. to_upper (if (c == 45) || (c == 46) then 95 else c)) cs

-- `strip_prefix('[')`, then `strip_suffix(']')`.
unfoldable pub header : List ℕ → Option (List ℕ)
unfolding strip_suffix
header [] = none
header (c ∷ cs) = let name = strip_suffix 93 93 cs in if c == 91 then name else none

unfoldable pub emit : List ℕ → List ℕ → Reader → Reader
emit name v r = record r { env = push r.env (prefix ++ name, v) }

-- Under a section the key is set under its name too.
unfoldable pub emit_key : List ℕ → List ℕ → Reader → Reader
unfolding emit
emit_key upper v r =
    emit upper v (if same_text r.section [] then r else emit (r.section ++ (95 ∷ upper)) v r)

unfoldable pub emit_heap : List ℕ → List ℕ → Reader → Outcome Reader
unfolding emit decimal parse_u64
emit_heap upper v r = elim (same_text upper heap_size_kb) [
  | false ↦ done r
  | true ↦ elim (parse_u64 v) [
    | none ↦ panics
    | some kb ↦
        if ltb (kb * 1024) u64_mod
        then done (emit (heap_size ++ bytes) (decimal (kb * 1024)) r)
        else panics
  ]
]

unfoldable pub emit_stack : List ℕ → List ℕ → Reader → Outcome Reader
unfolding emit decimal parse_size_bytes
emit_stack upper v r = elim (same_text upper stack_size) [
  | false ↦ done r
  | true ↦ elim (parse_size_bytes v) [
    | none ↦ panics
    | some n ↦ done (emit (stack_size ++ (95 ∷ bytes)) (decimal n) r)
  ]
]

-- The two choices that the features have to agree with.
unfoldable pub note_choice : List ℕ → List ℕ → Reader → Reader
note_choice upper v r =
    let r2 : Reader =
      if same_text r.section memory && same_text upper frame_allocator_key
      then record r { frame_allocator = some (map to_lower v) }
      else r in
    if same_text r.section sched_section && same_text upper default_key
    then record r2 { sched = some (map to_lower v) }
    else r2

unfoldable pub assign : List ℕ → List ℕ → Reader → Outcome Reader
unfolding emit_key emit_heap emit_stack note_choice
assign upper v r = do
  r2 ← emit_heap upper v (emit_key upper v r)
  r3 ← emit_stack upper v r2
  done (note_choice upper v r3)

-- A line that is neither blank, a comment nor a header: the key and its value.
unfoldable pub read_entry : List ℕ → Reader → Outcome Reader
unfolding assign name_of trim
read_entry line r = elim (split_once 61 (trim (before 35 line))) [
  | none ↦ done r
  | some (k, v) ↦ assign (name_of (trim k)) (trim (trim_matches is_quote (trim v))) r
]

unfoldable pub read_line : List ℕ → Reader → Outcome Reader
unfolding read_entry header name_of trim
read_line raw r =
    let line = trim raw in
    if same_text line [] || starts_with 35 line then done r else elim (header line) [
      | some name ↦ done (record r { section = name_of (trim name) })
      | none ↦ read_entry line r
    ]

unfoldable pub read_lines : List (List ℕ) → Reader → Outcome Reader
unfolding read_line
read_lines [] r = done r
read_lines (raw ∷ rest) r = read_line raw r >>= read_lines rest

-- A choice between two names, of which the features select one.
unfoldable pub agree : Option (List ℕ) → List ℕ → Bool → List ℕ → Bool → Outcome (Unit {0})
agree none one one_on two two_on = done tt
agree (some v) one one_on two two_on =
    if same_text v one && (one_on && not two_on)
    then done tt
    else if same_text v two && (two_on && not one_on)
    then done tt
    else panics

pub record Features : Type 0 where
  pub alloc_bump : Bool
  pub alloc_buddy : Bool
  pub sched_rr : Bool
  pub sched_cfs : Bool

-- `config` is the text of the file, which is empty when there is none.
unfoldable pub main : List ℕ → Features → Outcome (List Setting)
unfolding lines read_lines agree
main config f = do
  r ← read_lines (lines config) first_reader
  agree r.frame_allocator bump f.alloc_bump buddy f.alloc_buddy
  agree r.sched rr f.sched_rr cfs f.sched_cfs
  done r.env
