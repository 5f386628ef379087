-- ===== src/Memory/Buddy/Ownership.antt =====
-- Who owns which frame, over the allocator's whole life: the calls that the kernel makes of it, in any
-- order, from `new` through bump mode, `activate`, and the requests and returns after it.
pub mod Tally
pub mod Invariant
pub mod Safety
use rusty_core.Prelude.{
  ℕ, zero, suc, ◌+◌, ◌%◌, ◌<◌, ◌≤◌, ◌≡◌, ◌≢◌, ◌⊎◌, inl, inr, refl, sym, ap, ◌∙◌, subst, true, false,
  Bool, List, [], ◌∷◌, Option, none, some, arith, get_elem?, done,
}
use rusty_core.Prelude.Vecs.{sum_by, swap_remove, All}
use rusty_core.Memory.Regions.{phys_limit, Region, Holds, AreDisjoint, frame_size, min_addr}
use rusty_core.Memory.Cursor.Consumed.{Consumed}
use rusty_core.Memory.Buddy.{Buddy, new, allocate_frame, deallocate_frame, activate}
use rusty_core.Memory.Buddy.Weights.{within, coverage}
use rusty_core.Memory.Buddy.Frames.{IsSound}

-- The allocator, with the frames that it has handed out and not taken back.
pub record System : Type 0 where
  pub buddy : Buddy
  pub held : List ℕ

abbrev pub boot : List Region → System
boot rs = record { buddy = new rs; held = [] }

-- A call of the kernel. Only a frame that is held is returned: that is the safety condition of
-- `deallocate_frame`.
pub data Step (s : System) : System → Type 0 where
  takes :
      {a : ℕ} {b : Buddy}
      → allocate_frame s.buddy ≡ done (some a, b)
      → Step s (record { buddy = b; held = a ∷ s.held })
  fails :
      {b : Buddy}
      → allocate_frame s.buddy ≡ done (none, b)
      → Step s (record { buddy = b; held = s.held })
  activates : {b : Buddy} → activate s.buddy ≡ done b → Step s (record { buddy = b; held = s.held })
  returns :
      (i : ℕ) {a : ℕ} {b : Buddy}
      → get_elem? s.held i ≡ some a
      → deallocate_frame s.buddy a ≡ done b
      → Step s (record { buddy = b; held = swap_remove s.held i })

pub data Reach (rs : List Region) : System → Type 0 where
  booted : Reach rs (boot rs)
  later : {s t : System} → Reach rs s → Step s t → Reach rs t

-- How many held frames hold the address, and how many owners it has: held frames and free blocks.
abbrev pub held_at : List ℕ → ℕ → ℕ
held_at held x = sum_by (λ a. within a (a + frame_size) x) held

-- How many frames are held.
abbrev pub held_count : List ℕ → ℕ
held_count held = sum_by (λ _. 1) held

abbrev pub owners : System → ℕ → ℕ
owners s x = coverage s.buddy.free_lists x + held_at s.held x

pub record IsFrame (a : ℕ) : Type 0 where
  pub aligned : a % frame_size ≡ 0
  pub after_zero_page : min_addr ≤ a
  pub physical : a < phys_limit

pub record Common (rs : List Region) (s : System) : Type 0 where
  pub same_map : s.buddy.regions ≡ rs
  pub frames : All IsFrame s.held
  pub ledger : s.buddy.allocated ≡ held_count s.held
  pub once : (x : ℕ) → owners s x ≤ 1

-- Before `activate`: no lists, and whatever is held lies behind the cursor.
pub record Bumping (rs : List Region) (s : System) : Type 0 where
  pub common : Common rs s
  pub inactive : s.buddy.active ≡ false
  pub no_lists : s.buddy.free_lists ≡ (λ _. [])
  pub aligned : s.buddy.cursor.next_addr % frame_size ≡ 0
  pub small : s.buddy.cursor.next_addr ≤ phys_limit
  pub passed : (x : ℕ) → 0 < held_at s.held x → Consumed rs s.buddy.cursor x

-- After it: sound lists, and every owned address is usable memory.
pub record Running (rs : List Region) (s : System) : Type 0 where
  pub common : Common rs s
  pub active : s.buddy.active ≡ true
  pub sound : IsSound s.buddy
  pub mapped : (x : ℕ) → 0 < owners s x → (i : ℕ) × Holds rs i x

abbrev pub Inv : List Region → System → Type 0
Inv rs s = Bumping rs s ⊎ Running rs s
