-- ===== src/Memory/Buddy/Shares.antt =====
-- What `activate` lists of a map with disjoint regions: each address at most once, in a usable region,
-- past the zero page, and never behind the bump cursor.
use rusty_core.Prelude.{ℕ, suc, ◌+◌, ◌<◌, ◌≤◌, ◌≡◌, refl, true, List, [], ◌∷◌, arith, ◌⊎◌}
use native.Mathlib.Decide.{dec_lt}
use rusty_core.Memory.Regions.{Region, Holds, AreDisjoint, min_addr}
use rusty_core.Memory.Cursor.{Cursor}
use rusty_core.Memory.Cursor.Consumed.{Consumed}
use rusty_core.Memory.Buddy.Activation.{share, shares, align_up-bounds}

-- What a positive share says of an address.
record Shared (c : Cursor) (i : ℕ) (r : Region) (x : ℕ) : Type 0 where
  is_usable : r.usable ≡ true
  low : r.start ≤ x
  high : x < r.end
  after_zero_page : min_addr ≤ x
  ahead : (c.region_idx < i) ⊎ ((i ≡ c.region_idx) × (c.next_addr ≤ x))
  once : share c i r x ≡ 1

share-Shared : (c : Cursor) (i : ℕ) (r : Region) (x : ℕ) → 0 < share c i r x → Shared c i r x
unfolding share
share-Shared c i r x h = ground (arith, align_up-bounds r.start, align_up-bounds c.next_addr)

Holds-cons : (r : Region) {rs : List Region} {j x : ℕ} → Holds rs j x → Holds (r ∷ rs) (suc j) x
Holds-cons r h = record {
  region = h.region;
  found = h.found;
  is_usable = h.is_usable;
  low = h.low;
  high = h.high;
}

AreDisjoint-tail : (r : Region) (rs : List Region) → AreDisjoint (r ∷ rs) → AreDisjoint rs
AreDisjoint-tail r rs d i j x h k =
    omega (arith, d (suc i) (suc j) x (Holds-cons r h) (Holds-cons r k))

-- An address with a share lies in a region that the cursor has not passed.
pub record Unpassed (c : Cursor) (i : ℕ) (rs : List Region) (x : ℕ) : Type 0 where
  pub index : ℕ
  pub holds : Holds rs index x
  pub after_zero_page : min_addr ≤ x
  pub ahead : (c.region_idx < i + index) ⊎ ((i + index ≡ c.region_idx) × (c.next_addr ≤ x))

Unpassed-head :
    (c : Cursor) (i : ℕ) (r : Region) (rs : List Region) (x : ℕ)
    → Shared c i r x
    → Unpassed c i (r ∷ rs) x
Unpassed-head c i r rs x s = record {
  index = 0;
  holds = record { region = r; found = refl; is_usable = s.is_usable; low = s.low; high = s.high };
  after_zero_page = s.after_zero_page;
  ahead = ground (arith, s.ahead);
}

Unpassed-tail :
    (c : Cursor) (i : ℕ) (r : Region) (rs : List Region) (x : ℕ)
    → Unpassed c (i + 1) rs x
    → Unpassed c i (r ∷ rs) x
Unpassed-tail c i r rs x u = record {
  index = suc u.index;
  holds = Holds-cons r u.holds;
  after_zero_page = u.after_zero_page;
  ahead = ground (arith, u.ahead);
}

pub shares-Unpassed :
    (c : Cursor) (i : ℕ) (rs : List Region) (x : ℕ) → 0 < shares c i rs x → Unpassed c i rs x
unfolding shares
shares-Unpassed c i [] x h = absurd (omega arith)
shares-Unpassed c i (r ∷ rs) x h = elim (dec_lt 0 (share c i r x)) [
  | yes here ↦ Unpassed-head c i r rs x (share-Shared c i r x here)
  | no there ↦ Unpassed-tail c i r rs x (shares-Unpassed c (i + 1) rs x (omega arith))
]

pub shares-le-one :
    (c : Cursor) (i : ℕ) (rs : List Region) (x : ℕ) → AreDisjoint rs → shares c i rs x ≤ 1
unfolding shares Unpassed-head
shares-le-one c i [] x d = omega arith
shares-le-one c i (r ∷ rs) x d =
    let rest = shares-le-one c (i + 1) rs x (AreDisjoint-tail r rs d) in
    elim (dec_lt 0 (share c i r x)) [
      | no none_here ↦ omega arith
      | yes here ↦ elim (dec_lt 0 (shares c (i + 1) rs x)) [
        | no none_there ↦ omega (arith, (share-Shared c i r x here).once)
        | yes there ↦
            let u = shares-Unpassed c (i + 1) rs x there in
            let first = Unpassed-head c i r rs x (share-Shared c i r x here) in
            absurd (omega (arith, d 0 (suc u.index) x first.holds (Holds-cons r u.holds)))
      ]
    ]

-- No share lies behind the cursor.
pub Unpassed-not_Consumed :
    {c : Cursor} {rs : List Region} {x : ℕ} → AreDisjoint rs → Unpassed c 0 rs x → ¬ Consumed rs c x
Unpassed-not_Consumed d u (i, h, w) = grind (arith, d i u.index _ h u.holds, u.ahead, w)
