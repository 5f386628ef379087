-- ===== src/Task/Stack.antt =====
-- `TaskStack` of kernel/src/task.rs: a window of the heap with both ends aligned, and a canary at its
-- bottom. `raw` is the address that the allocator returns for the backing store.
use rusty_core.Prelude.{
  ℕ, ◌+◌, ◌-◌, ◌*◌, ◌%◌, ◌<◌, ◌≤◌, ◌≡◌, ◌≢◌, refl, Bool, true, List, [], ◌∷◌, arith, u64_mod,
  if◌then◌else◌, leb, ltb, ◌==◌, update, Outcome, done, panics, ◌>>=◌, ◌>>◌, assert, add_u64,
  next_multiple_of, align_up,
}

-- `parse_stack_bytes`: the digits of the configured size, by a left fold. The wrapping subtraction
-- makes every byte that is not a digit fail the test.
unfoldable pub parse_digits : List ℕ → ℕ → Outcome ℕ
parse_digits [] n = done n
parse_digits (b ∷ bytes) n = do
  let d = (b + 256 - 48) % 256
  assert (ltb d 10)
  let rest = parse_digits bytes (n * 10 + d)
  if ltb (n * 10 + d) u64_mod then rest else panics

abbrev pub parse_stack_bytes : List ℕ → Outcome ℕ
parse_stack_bytes bytes = parse_digits bytes 0

-- `stack_size = "128K"` of config/kernel_config.toml.
abbrev pub stack_size_bytes : ℕ
stack_size_bytes = 131072

abbrev pub stack_canary : ℕ
stack_canary = 0xDEAD_BEEF_CAFE_F00D

abbrev pub stack_align : ℕ
stack_align = 16

abbrev pub stack_alloc_bytes : ℕ
stack_alloc_bytes = stack_size_bytes + stack_align

pub record TaskStack : Type 0 where
  pub top : ℕ
  pub bottom : ℕ

unfoldable pub new : ℕ → (ℕ → ℕ) → Outcome (TaskStack × (ℕ → ℕ))
new raw mem = do
  bottom ← next_multiple_of raw stack_align
  top ← add_u64 bottom stack_size_bytes
  assert (bottom % stack_align == 0)
  assert (top % stack_align == 0)
  end ← add_u64 raw stack_alloc_bytes
  assert (leb top end)
  done (record { top = top; bottom = bottom }, update mem bottom stack_canary)

unfoldable pub canary_ok : TaskStack → (ℕ → ℕ) → Bool
canary_ok stack mem = mem stack.bottom == stack_canary

-- Wherever the allocator puts the backing store, the window is found without a panic: both ends are
-- aligned, it lies inside the store, its size is the configured one, its canary is in place, and no
-- other word has changed.
pub new-fits :
    (raw : ℕ) (mem : ℕ → ℕ)
    → raw + stack_alloc_bytes < u64_mod
    → (s : TaskStack) × (mem' : ℕ → ℕ) × (new raw mem ≡ done (s, mem'))
      × (s.bottom % 16 ≡ 0)
      × (s.top % 16 ≡ 0)
      × (raw ≤ s.bottom)
      × (s.top ≡ s.bottom + stack_size_bytes)
      × (s.top ≤ raw + stack_alloc_bytes)
      × (canary_ok s mem' ≡ true)
      × ((a : ℕ) → a ≢ s.bottom → mem' a ≡ mem a)
unfolding new canary_ok
new-fits raw mem small = (
  record { top = align_up raw 16 + stack_size_bytes; bottom = align_up raw 16 },
  update mem (align_up raw 16) stack_canary,
  ground arith,
  ground arith,
  ground arith,
  ground arith,
  refl,
  ground arith,
  ground arith,
  λ a ne. ground arith,
)
