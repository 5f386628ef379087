-- ===== src/Memory/Cursor/Consumed.antt =====
-- What lies behind the cursor: no frame is handed out twice in bump mode, and a walk ends.
use rusty_core.Prelude.{
  ℕ, zero, suc, ◌+◌, ◌≤◌, ◌<◌, ◌≡◌, refl, sym, ◌∙◌, ◌⊎◌, inl, inr, List, [], ◌∷◌, Option, none,
  some, arith, get_elem?, length, done, Option-cases,
}
use rusty_core.Memory.Regions.{Region, Holds, AreDisjoint, frame_size}
use rusty_core.Memory.Cursor.{Cursor, place, advance, walk, rounds}
use rusty_core.Memory.Cursor.Walks.{
  Found, Placement-cases, walk-end, walk-skip, walk-stop, walk-take,
}

-- Address `x` lies in a usable region before the cursor's, or below the cursor in its own region.
abbrev pub Consumed : List Region → Cursor → ℕ → Type 0
Consumed rs c x =
    (i : ℕ) × Holds rs i x × ((i < c.region_idx) ⊎ ((i ≡ c.region_idx) × (x < c.next_addr)))

pub lt-length_of_get {ℓ} :
    {A : Type ℓ} (xs : List A) (i : ℕ) {a : A} → get_elem? xs i ≡ some a → i < length xs
lt-length_of_get [] i e = cc
lt-length_of_get (x ∷ xs) zero e = omega arith
lt-length_of_get (x ∷ xs) (suc i) e = omega (arith, lt-length_of_get xs i e)

module _ {rs : List Region} {c c' : Cursor} {a : ℕ} (f : Found rs c a c') where
  Found-Holds : (x : ℕ) → a ≤ x → x < a + frame_size → Holds rs c'.region_idx x
  Found-Holds x lo hi = record {
    region = f.region;
    found = f.found;
    is_usable = f.is_usable;
    low = omega (arith, f.after_start);
    high = omega (arith, f.before_end);
  }

  -- The frame lies behind the new cursor.
  pub Found-Consumed : (x : ℕ) → a ≤ x → x < a + frame_size → Consumed rs c' x
  Found-Consumed x lo hi = (c'.region_idx, Found-Holds x lo hi, inr (refl, omega (arith, f.next)))

  -- It did not lie behind the old one.
  pub Found-fresh : AreDisjoint rs → (x : ℕ) → a ≤ x → x < a + frame_size → ¬ Consumed rs c x
  Found-fresh dis x lo hi (i, h, inl before) =
      omega (arith, f.ahead, dis i c'.region_idx x h (Found-Holds x lo hi))
  Found-fresh dis x lo hi (i, h, inr (e, below)) =
      let same = dis i c'.region_idx x h (Found-Holds x lo hi) in
      omega (arith, f.here (sym same ∙ e))

  -- What lay behind the old cursor lies behind the new one.
  pub Consumed-mono : (x : ℕ) → Consumed rs c x → Consumed rs c' x
  Consumed-mono x (i, h, w) = (i, h, grind (arith, f.ahead, f.here, f.next))

-- Each round goes to a later region or ends the loop.
walk_ends :
    (fuel : ℕ) (rs : List Region) (c : Cursor)
    → 0 < fuel
    → length rs < fuel + c.region_idx
    → (o : Option ℕ) × (c' : Cursor) × (walk fuel rs c ≡ done (o, c'))
unfolding advance
walk_ends zero rs c pos h = absurd (omega arith)
walk_ends (suc fuel) rs c pos h = elim (Option-cases (get_elem? rs c.region_idx)) [
  | inl missing ↦ (none, c, walk-end fuel rs c missing)
  | inr (r, found) ↦
      let inside = lt-length_of_get rs c.region_idx found in
      elim (Placement-cases (place r c.next_addr)) [
        | inl p ↦
            let (o, c', e) = walk_ends fuel rs (advance c) (omega (arith, inside)) (omega arith) in
            (o, c', walk-skip fuel rs c r found p ∙ e)
        | inr (inl p) ↦ (none, c, walk-stop fuel rs c r found p)
        | inr (inr (b, p)) ↦ (some b, _, walk-take fuel rs c r found b p)
      ]
]

pub walk_returns :
    (rs : List Region) (c : Cursor)
    → (o : Option ℕ) × (c' : Cursor) × (walk (rounds rs) rs c ≡ done (o, c'))
walk_returns rs c = walk_ends (rounds rs) rs c (omega arith) (omega arith)
