-- ===== src/Config/ReaderTests.antt =====
-- A small configuration, and the instances of the theorems on the readers there.
use rusty_core.Prelude.{
  ℕ, ◌≡◌, ◌↔◌, refl, true, false, none, some, List, [], ◌∷◌, ◌++◌, arith, done, panics,
}
use rusty_core.Prelude.Vecs.{push, pop}
use rusty_core.Config.{trim}
use rusty_core.Config.Text.{codes, lines, before, split_once, trim_matches, decimal}
use rusty_core.Config.Reader.{
  Setting, Reader, Features, first_reader, header, name_of, read_lines, main, prefix, sched_section,
  default_key, rr, cfs, memory, frame_allocator_key, heap_size, heap_size_kb, bytes, stack_size,
}
use rusty_core.Config.Qemu.{scan, qemu_cfg}
use rusty_core.Config.Qemu.Agreement.{qemu_variable, qemu_cfg-IsExported}
use rusty_core.Config.Reader.Onward.{IsExported}
use rusty_core.Config.Reader.Choices.{AreAgreed, last_of, main_iff}
use rusty_core.Config.Reader.Entries.{chosen, entries_below}
use rusty_core.Config.Digits.{decimal-parse_digits}
use rusty_core.Task.Stack.{parse_stack_bytes}
use rusty_core.Memory.Mapping.{parse_heap_bytes}

abbrev sched_lines : List ℕ
sched_lines = codes "[sched]\ndefault = \"rr\" # rr | cfs\n\n"

abbrev memory_lines : List ℕ
memory_lines = codes "[memory]\nheap_size_kb = 1024\nstack-size = \"128K\"\n"

abbrev qemu_lines : List ℕ
qemu_lines = codes "[qemu]\n# cpu\nsmp = 2\n"

abbrev config : List ℕ
config = sched_lines ++ (memory_lines ++ qemu_lines)

abbrev default_features : Features
default_features = record {
  alloc_bump = false;
  alloc_buddy = true;
  sched_rr = true;
  sched_cfs = false;
}

abbrev smp : List ℕ
smp = codes "smp"

abbrev two : List ℕ
two = 50 ∷ []

abbrev digits_1024 : List ℕ
digits_1024 = codes "1024"

abbrev size_128 : List ℕ
size_128 = codes "128K"

abbrev settings : List Setting
settings =
    (prefix ++ (sched_section ++ (95 ∷ default_key)), rr)
    ∷ (prefix ++ default_key, rr)
    ∷ (prefix ++ (memory ++ (95 ∷ heap_size_kb)), digits_1024)
    ∷ (prefix ++ heap_size_kb, digits_1024)
    ∷ (prefix ++ (heap_size ++ bytes), codes "1048576")
    ∷ (prefix ++ (memory ++ (95 ∷ stack_size)), size_128)
    ∷ (prefix ++ stack_size, size_128)
    ∷ (prefix ++ (stack_size ++ (95 ∷ bytes)), codes "131072")
    ∷ (qemu_variable smp, two)
    ∷ (prefix ++ name_of smp, two)
    ∷ []

config_built : main config default_features ≡ done settings
unfolding main pop split_once before trim_matches push
config_built = refl

smp_found : scan smp false (lines config) ≡ some two
unfolding scan lines split_once before trim_matches
smp_found = refl

-- With the policy of the other feature the build fails.
other_policy : main config (record default_features { sched_rr = false; sched_cfs = true }) ≡ panics
unfolding main pop split_once before trim_matches
other_policy = refl

-- A comment behind a header: the header is not seen, and the key below it is filed under the section
-- before.
abbrev commented : List ℕ
commented = codes "[memory]\n[sched] # policy\ndefault = \"cfs\"\n"

commented_missed :
    read_lines (lines commented) first_reader
    ≡ done (record {
      section = memory;
      frame_allocator = none;
      sched = none;
      env =
          (prefix ++ (memory ++ (95 ∷ default_key)), codes "cfs")
          ∷ (prefix ++ default_key, codes "cfs")
          ∷ [];
    })
unfolding read_lines lines pop split_once before push trim_matches
commented_missed = refl

qemu_cfg-IsSet_example :
    ((fallback : List ℕ) → qemu_cfg config smp fallback ≡ two)
    × IsExported (qemu_variable smp) (trim two) settings
qemu_cfg-IsSet_example =
    qemu_cfg-IsExported config smp two default_features settings config_built smp_found

decimal-parse_digits_example :
    (parse_stack_bytes (decimal 131072) ≡ done 131072)
    × (parse_heap_bytes (decimal 131072) ≡ done 131072)
decimal-parse_digits_example = decimal-parse_digits 131072 (omega arith)

-- Of two entries for the policy, the last one is taken.
policy_last :
    last_of sched_section default_key (config ++ codes "[sched]\nDefault = CFS\n") ≡ some cfs
unfolding entries_below chosen lines split_once before trim_matches pop push trim header name_of
policy_last = refl

main_iff_example : (main config default_features ≡ done settings) ↔ (
    (r : Reader) × (read_lines (lines config) first_reader ≡ done r)
    × (r.env ≡ settings)
    × AreAgreed
        (last_of memory frame_allocator_key config)
        (last_of sched_section default_key config)
        default_features)
main_iff_example = main_iff config default_features settings
