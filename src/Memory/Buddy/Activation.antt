-- ===== src/Memory/Buddy/Activation.antt =====
-- `activate`: it neither panics nor runs on, and lists exactly what the bump cursor has not passed.
use rusty_core.Prelude.{
  ℕ, ◌+◌, ◌*◌, ◌/◌, ◌%◌, ◌<◌, ◌≤◌, ◌≡◌, refl, ap, ◌∙◌, true, false, List, [], ◌∷◌, arith,
  if◌then◌else◌, ltb, leb, ◌==◌, max, align_up, done, inl, inr, ◌⊎◌, ◌>>=◌, Bool-cases, leb-false,
  ltb-false, eq-false, ==_iff,
}
use rusty_core.Prelude.Vecs.{All}
use native.Mathlib.Decide.{dec_lt, ℕ_discrete}
use rusty_core.Memory.Regions.{phys_limit, Region, frame_size, min_addr}
use rusty_core.Memory.Cursor.{Cursor}
use rusty_core.Memory.Buddy.{FreeLists, carve, carve_rounds, carve_region, carve_regions}
use rusty_core.Memory.Buddy.Measure.{AreBlocks}
use rusty_core.Memory.Buddy.Weights.{within, coverage}
use rusty_core.Memory.Buddy.Carving.{Carved, carve-Carved}

-- The addresses of a region that `activate` lists, for the bump cursor `c`.
abbrev pub region_start : Region → ℕ
region_start r = max (align_up r.start frame_size) min_addr

abbrev pub region_end : Region → ℕ
region_end r = r.end / frame_size * frame_size

abbrev pub resume : Cursor → Region → ℕ
resume c r = max (region_start r) (align_up c.next_addr frame_size)

unfoldable pub share : Cursor → ℕ → Region → ℕ → ℕ
share c i r x =
    if r.usable
    then if leb r.end r.start
      then 0
      else if i == c.region_idx
      then within (resume c r) (region_end r) x
      else if ltb i c.region_idx
      then 0
      else within (region_start r) (region_end r) x
    else 0

unfoldable pub shares : Cursor → ℕ → List Region → ℕ → ℕ
shares c i [] x = 0
shares c i (r ∷ rs) x = share c i r x + shares c (i + 1) rs x

pub record IsPhysical (r : Region) : Type 0 where
  pub start_in : r.start ≤ phys_limit
  pub end_in : r.end ≤ phys_limit

pub record Listed (added : ℕ → ℕ) (lists lists' : FreeLists) : Type 0 where
  pub blocks : AreBlocks lists'
  pub listed : (x : ℕ) → coverage lists' x ≡ coverage lists x + added x

pub align_up-bounds :
    (a : ℕ)
    → (align_up a frame_size % frame_size ≡ 0)
      × (a ≤ align_up a frame_size)
      × (align_up a frame_size < a + frame_size)
align_up-bounds a = ground arith

module _ (c : Cursor) (small : c.next_addr ≤ phys_limit) (i : ℕ) (r : Region)
    (phys : IsPhysical r) where
  module _ (lists : FreeLists) where
    carve_region-resume :
        r.usable ≡ true
        → r.start < r.end
        → i ≡ c.region_idx
        → carve_region c i r lists
          ≡ carve (carve_rounds (region_end r)) (resume c r) (region_end r) lists
    unfolding carve_region
    carve_region-resume u ne e = ground arith

    carve_region-later :
        r.usable ≡ true
        → r.start < r.end
        → c.region_idx < i
        → carve_region c i r lists
          ≡ carve (carve_rounds (region_end r)) (region_start r) (region_end r) lists
    unfolding carve_region
    carve_region-later u ne e = ground arith

    carve_region-skip :
        (r.usable ≡ false) ⊎ ((r.end ≤ r.start) ⊎ (i < c.region_idx))
        → carve_region c i r lists ≡ done lists
    unfolding carve_region
    carve_region-skip h = ground arith

    -- The carving of the range from `from` to the region's last frame, which `x` of the share sees.
    carved :
        (from : ℕ)
        → from % frame_size ≡ 0
        → from ≤ 2 * phys_limit
        → AreBlocks lists
        → (lists' : FreeLists) × (carve (carve_rounds (region_end r)) from (region_end r) lists
            ≡ done lists')
          × Carved from (region_end r) lists lists'
    carved from al le h =
        carve-Carved (carve_rounds (region_end r)) from (region_end r) lists al (omega arith) le
          (omega (arith, phys.end_in)) (omega arith) (omega arith) h

    share-resume :
        r.usable ≡ true
        → r.start < r.end
        → i ≡ c.region_idx
        → (x : ℕ) → share c i r x ≡ within (resume c r) (region_end r) x
    unfolding share
    share-resume u ne e x = rw (u, leb-false r.end r.start ne, (==_iff i c.region_idx).1 e)

    share-later :
        r.usable ≡ true
        → r.start < r.end
        → c.region_idx < i
        → (x : ℕ) → share c i r x ≡ within (region_start r) (region_end r) x
    unfolding share
    share-later u ne e x = rw (
      u,
      leb-false r.end r.start ne,
      eq-false i c.region_idx (omega arith),
      ltb-false i c.region_idx (omega arith),
    )

    share-skip :
        (r.usable ≡ false) ⊎ ((r.end ≤ r.start) ⊎ (i < c.region_idx)) → (x : ℕ) → share c i r x ≡ 0
    unfolding share
    share-skip h x = ground arith

    carve_region-Listed :
        AreBlocks lists
        → (lists' : FreeLists) × (carve_region c i r lists ≡ done lists')
          × Listed (share c i r) lists lists'
    carve_region-Listed h =
        go (Bool-cases r.usable) (dec_lt r.start r.end) (dec_lt i c.region_idx)
          (ℕ_discrete i c.region_idx)
      where
        skipped :
            (r.usable ≡ false) ⊎ ((r.end ≤ r.start) ⊎ (i < c.region_idx))
            → (lists' : FreeLists) × (carve_region c i r lists ≡ done lists')
              × Listed (share c i r) lists lists'
        skipped w = (
          lists,
          carve_region-skip w,
          record { blocks = h; listed = λ x. omega (arith, share-skip w x) },
        )

        go :
            (r.usable ≡ true) ⊎ (r.usable ≡ false)
            → Dec (r.start < r.end)
            → Dec (i < c.region_idx)
            → Dec (i ≡ c.region_idx)
            → (lists' : FreeLists) × (carve_region c i r lists ≡ done lists')
              × Listed (share c i r) lists lists'
        go (inr u) d e f = skipped (inl u)
        go (inl u) (no empty) e f = skipped (inr (inl (omega arith)))
        go (inl u) (yes ne) (yes before) f = skipped (inr (inr before))
        go (inl u) (yes ne) (no later) (yes same) =
            let (lists', e, carving) =
              carved (resume c r)
                (omega (arith, align_up-bounds r.start, align_up-bounds c.next_addr))
                (omega (arith, phys.start_in, align_up-bounds r.start, align_up-bounds c.next_addr))
                h in
            (
              lists',
              carve_region-resume u ne same ∙ e,
              record {
                blocks = carving.blocks;
                listed = λ x. omega (arith, carving.listed x, share-resume u ne same x);
              },
            )
        go (inl u) (yes ne) (no later) (no other) =
            let (lists', e, carving) =
              carved (region_start r) (omega (arith, align_up-bounds r.start))
                (omega (arith, phys.start_in, align_up-bounds r.start)) h in
            (
              lists',
              carve_region-later u ne (omega arith) ∙ e,
              record {
                blocks = carving.blocks;
                listed = λ x. omega (arith, carving.listed x, share-later u ne (omega arith) x);
              },
            )

pub carve_regions-Listed :
    (c : Cursor)
    → c.next_addr ≤ phys_limit
    → (i : ℕ) (rs : List Region) → All IsPhysical rs
    → (lists : FreeLists) → AreBlocks lists
    → (lists' : FreeLists) × (carve_regions c i rs lists ≡ done lists')
      × Listed (shares c i rs) lists lists'
unfolding carve_regions shares
carve_regions-Listed c small i [] phys lists h =
    (lists, refl, record { blocks = h; listed = λ x. omega arith })
carve_regions-Listed c small i (r ∷ rs) phys lists h =
    let (mid, e, l) = carve_region-Listed c small i r phys.0 lists h in
    let (lists', e', l') = carve_regions-Listed c small (i + 1) rs phys.1 mid l.blocks in
    (
      lists',
      ap (λ o. o >>= λ m. carve_regions c (i + 1) rs m) e ∙ e',
      record { blocks = l'.blocks; listed = λ x. omega (arith, l.listed x, l'.listed x) },
    )
