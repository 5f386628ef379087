-- ===== src/Memory/Cursor/Walks.antt =====
-- What a walk of the cursor returns.
use rusty_core.Prelude.{
  ℕ, zero, suc, ◌+◌, ◌%◌, ◌≤◌, ◌<◌, ◌≡◌, refl, sym, ◌∙◌, true, List, Option, none, some, arith,
  get_elem?, Outcome, done, Option-cases, ◌⊎◌, inl, inr,
}
use rusty_core.Memory.Regions.{Region, frame_size, min_addr}
use rusty_core.Memory.Cursor.{Cursor, Placement, skip, stop, take, place, advance, walk}

-- A frame that `place` takes: aligned, past the cursor and the zero page, inside the region.
record Fits (r : Region) (next a : ℕ) : Type 0 where
  is_usable : r.usable ≡ true
  after_start : r.start ≤ a
  after_next : next ≤ a
  after_zero_page : min_addr ≤ a
  before_end : a + frame_size ≤ r.end
  aligned : a % frame_size ≡ 0

place-Fits :
    (r : Region) (next a : ℕ) → next % frame_size ≡ 0 → place r next ≡ take a → Fits r next a
unfolding place
place-Fits r next a al e = ground arith

-- What a walk from `c` that returns frame `a` and cursor `c'` has found.
pub record Found (rs : List Region) (c : Cursor) (a : ℕ) (c' : Cursor) : Type 0 where
  pub ahead : c.region_idx ≤ c'.region_idx
  pub here : c'.region_idx ≡ c.region_idx → c.next_addr ≤ a
  pub next : c'.next_addr ≡ a + frame_size
  pub region : Region
  pub found : get_elem? rs c'.region_idx ≡ some region
  pub is_usable : region.usable ≡ true
  pub after_start : region.start ≤ a
  pub before_end : a + frame_size ≤ region.end
  pub after_zero_page : min_addr ≤ a
  pub aligned : a % frame_size ≡ 0

Found-taken :
    (rs : List Region) (c : Cursor) (r : Region) (a : ℕ)
    → get_elem? rs c.region_idx ≡ some r
    → Fits r c.next_addr a
    → Found rs c a (record c { next_addr = a + frame_size })
Found-taken rs c r a e f = record {
  ahead = omega arith;
  here = λ _. f.after_next;
  next = refl;
  region = r;
  found = e;
  is_usable = f.is_usable;
  after_start = f.after_start;
  before_end = f.before_end;
  after_zero_page = f.after_zero_page;
  aligned = f.aligned;
}

Found-advance :
    (rs : List Region) (c : Cursor) (a : ℕ) (c' : Cursor)
    → Found rs (advance c) a c'
    → Found rs c a c'
unfolding advance
Found-advance rs c a c' f = record {
  ahead = omega (arith, f.ahead);
  here = λ e. absurd (omega (arith, f.ahead));
  next = f.next;
  region = f.region;
  found = f.found;
  is_usable = f.is_usable;
  after_start = f.after_start;
  before_end = f.before_end;
  after_zero_page = f.after_zero_page;
  aligned = f.aligned;
}

pub Placement-cases : (p : Placement) → (p ≡ skip) ⊎ ((p ≡ stop) ⊎ ((a : ℕ) × (p ≡ take a)))
Placement-cases skip = inl refl
Placement-cases stop = inr (inl refl)
Placement-cases (take a) = inr (inr (a, refl))

-- One round of the loop, by what `place` says of the cursor's region.
module _ (fuel : ℕ) (rs : List Region) (c : Cursor) where
  pub walk-end : get_elem? rs c.region_idx ≡ none → walk (suc fuel) rs c ≡ done (none, c)
  unfolding walk
  walk-end missing = rw (missing, walk)

  module _ (r : Region) (found : get_elem? rs c.region_idx ≡ some r) where
    pub walk-skip : place r c.next_addr ≡ skip → walk (suc fuel) rs c ≡ walk fuel rs (advance c)
    unfolding walk
    walk-skip p = rw (found, walk, p)

    pub walk-stop : place r c.next_addr ≡ stop → walk (suc fuel) rs c ≡ done (none, c)
    unfolding walk
    walk-stop p = rw (found, walk, p)

    pub walk-take :
        (a : ℕ)
        → place r c.next_addr ≡ take a
        → walk (suc fuel) rs c ≡ done (some a, record c { next_addr = a + frame_size })
    unfolding walk
    walk-take a p = rw (found, walk, p)

pub walk-Found :
    (fuel : ℕ) (rs : List Region) (c : Cursor) (a : ℕ) (c' : Cursor)
    → c.next_addr % frame_size ≡ 0
    → walk fuel rs c ≡ done (some a, c')
    → Found rs c a c'
unfolding walk
walk-Found zero rs c a c' al e = cc
walk-Found (suc fuel) rs c a c' al e = elim (Option-cases (get_elem? rs c.region_idx)) [
  | inl missing ↦ absurd (ground (arith, walk-end fuel rs c missing))
  | inr (r, found) ↦ elim (Placement-cases (place r c.next_addr)) [
    | inl p ↦ Found-advance rs c a c' (
        walk-Found fuel rs (advance c) a c' (unfold advance in refl)
          (sym (walk-skip fuel rs c r found p) ∙ e))
    | inr (inl p) ↦ absurd (ground (arith, walk-stop fuel rs c r found p))
    | inr (inr (b, p)) ↦ ground (
      arith,
      walk-take fuel rs c r found b p,
      Found-taken rs c r b found (place-Fits r c.next_addr b al p),
    )
  ]
]

-- A walk that finds nothing leaves the cursor where it is, or at the start of a later region.
abbrev pub Rested : Cursor → Cursor → Type 0
Rested c c' = (c' ≡ c) ⊎ ((c.region_idx < c'.region_idx) × (c'.next_addr ≡ 0))

Rested-advance : (c c' : Cursor) → Rested (advance c) c' → Rested c c'
unfolding advance
Rested-advance c c' (inl e) = inr (ground arith)
Rested-advance c c' (inr (lt, e)) = inr (omega arith)

-- The cursor in a result of a walk that found nothing.
stayed :
    {c c' : Cursor} {o : Outcome (Option ℕ × Cursor)}
    → o ≡ done (none, c)
    → o ≡ done (none, c')
    → Rested c c'
stayed p q = inl (cc)

pub walk-Rested :
    (fuel : ℕ) (rs : List Region) (c c' : Cursor) → walk fuel rs c ≡ done (none, c') → Rested c c'
unfolding walk
walk-Rested zero rs c c' e = cc
walk-Rested (suc fuel) rs c c' e = elim (Option-cases (get_elem? rs c.region_idx)) [
  | inl missing ↦ stayed (walk-end fuel rs c missing) e
  | inr (r, found) ↦ elim (Placement-cases (place r c.next_addr)) [
    | inl p ↦
        Rested-advance c c'
          (walk-Rested fuel rs (advance c) c' (sym (walk-skip fuel rs c r found p) ∙ e))
    | inr (inl p) ↦ stayed (walk-stop fuel rs c r found p) e
    | inr (inr (b, p)) ↦ cc (walk-take fuel rs c r found b p)
  ]
]
