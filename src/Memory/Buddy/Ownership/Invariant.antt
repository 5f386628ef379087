-- ===== src/Memory/Buddy/Ownership/Invariant.antt =====
-- The invariant of ownership holds at boot and after every call.
use rusty_core.Prelude.{
  ℕ, ◌+◌, ◌<◌, ◌≤◌, ◌≡◌, ◌⊎◌, inl, inr, refl, sym, ap, ◌∙◌, subst, true, false, List, [], ◌∷◌, some,
  arith, get_elem?, done, u64_max, length,
}
use rusty_core.Prelude.Vecs.{sum_by, swap_remove, All, All-swap_remove, sum_by-swap_remove, All-get}
use rusty_core.Memory.Regions.{Region, AreDisjoint, frame_size}
use native.Mathlib.Decide.{dec_lt}
use rusty_core.Memory.Cursor.{Cursor}
use rusty_core.Memory.Cursor.Walks.{Found, Rested}
use rusty_core.Memory.Cursor.Consumed.{Consumed, Consumed-mono, Found-Consumed, Found-fresh}
use rusty_core.Memory.Buddy.{Buddy, FreeLists, new, activate, carve_regions}
use rusty_core.Memory.Buddy.Measure.{AreBlocks, total}
use rusty_core.Memory.Buddy.Weights.{within, coverage}
use rusty_core.Memory.Buddy.Frames.{Allocated, Freed}
use rusty_core.Memory.Buddy.Activation.{IsPhysical, shares, Listed, carve_regions-Listed}
use rusty_core.Memory.Buddy.Shares.{shares-Unpassed, shares-le-one, Unpassed-not_Consumed}
use rusty_core.Memory.Buddy.Ownership.{
  System, boot, held_at, held_count, IsFrame, Bumping, Running, Inv,
}

coverage-none : (x : ℕ) → coverage (λ _. []) x ≡ 0
unfolding total sum_by
coverage-none x = refl

no_coverage : {lists : FreeLists} → lists ≡ (λ _. []) → (x : ℕ) → coverage lists x ≡ 0
no_coverage e x = ap (λ l. coverage l x) e ∙ coverage-none x

within-le : (a b x : ℕ) → within a b x ≤ 1
within-le a b x = ground arith

pub boot-Inv : (rs : List Region) → Inv rs (boot rs)
unfolding new sum_by
boot-Inv rs = inl (record {
  common = record {
    same_map = refl;
    frames = tt;
    ledger = refl;
    once = λ x. omega (arith, coverage-none x);
  };
  inactive = refl;
  no_lists = refl;
  aligned = refl;
  small = omega arith;
  passed = λ x h. absurd (omega arith);
})

pub done_inj {ℓ} : {A : Type ℓ} {a b : A} → done a ≡ done b → a ≡ b
done_inj e = cc

held_at-cons :
    (a : ℕ) (held : List ℕ) (x : ℕ)
    → held_at (a ∷ held) x ≡ within a (a + frame_size) x + held_at held x
unfolding sum_by
held_at-cons a held x = refl

held_count-cons : (a : ℕ) (held : List ℕ) → held_count (a ∷ held) ≡ held_count held + 1
unfolding sum_by
held_count-cons a held = omega arith

module _ {rs : List Region} (disjoint : AreDisjoint rs) (phys : All IsPhysical rs) where
  -- Bump mode, and the cursor finds frame `a`.
  pub bump_takes :
      {s : System} {a : ℕ} {c : Cursor}
      → Bumping rs s
      → Found rs s.buddy.cursor a c
      → Bumping rs (record {
        buddy = record s.buddy { cursor = c; allocated = s.buddy.allocated + 1 };
        held = a ∷ s.held;
      })
  bump_takes {s} {a} {c} v f = record {
    common = record {
      same_map = v.common.same_map;
      frames = (
        record {
          aligned = f.aligned;
          after_zero_page = f.after_zero_page;
          physical =
              omega (arith, f.before_end, (All-get IsPhysical rs c.region_idx phys f.found).end_in);
        },
        v.common.frames,
      );
      ledger = omega (arith, v.common.ledger, held_count-cons a s.held);
      once = once;
    };
    inactive = v.inactive;
    no_lists = v.no_lists;
    aligned = omega (arith, f.next, f.aligned);
    small =
        omega
          (arith, f.next, f.before_end, (All-get IsPhysical rs c.region_idx phys f.found).end_in);
    passed = passed;
  }
    where
      inside : (x : ℕ) → 0 < within a (a + frame_size) x → (a ≤ x) × (x < a + frame_size)
      inside x h = ground arith

      fresh : (x : ℕ) → 0 < within a (a + frame_size) x → held_at s.held x ≡ 0
      fresh x h = elim (dec_lt 0 (held_at s.held x)) [
        | yes old ↦ absurd (Found-fresh f disjoint x (inside x h).0 (inside x h).1 (v.passed x old))
        | no none_held ↦ omega arith
      ]

      once : (x : ℕ) → coverage s.buddy.free_lists x + held_at (a ∷ s.held) x ≤ 1
      once x = elim (dec_lt 0 (within a (a + frame_size) x)) [
        | yes new_one ↦ omega (
          arith,
          within-le a (a + frame_size) x,
          held_at-cons a s.held x,
          fresh x new_one,
          no_coverage v.no_lists x,
        )
        | no old_one ↦ omega (arith, held_at-cons a s.held x, v.common.once x)
      ]

      passed : (x : ℕ) → 0 < held_at (a ∷ s.held) x → Consumed rs c x
      passed x h = elim (dec_lt 0 (within a (a + frame_size) x)) [
        | yes new_one ↦ Found-Consumed f x (inside x new_one).0 (inside x new_one).1
        | no old_one ↦ Consumed-mono f x (v.passed x (omega (arith, held_at-cons a s.held x)))
      ]

  pub bump_fails :
      {s : System} {c : Cursor}
      → Bumping rs s
      → Rested s.buddy.cursor c
      → Bumping rs (record { buddy = record s.buddy { cursor = c }; held = s.held })
  bump_fails {s} {c} v (inl e) =
      subst (λ d. Bumping rs (record { buddy = record s.buddy { cursor = d }; held = s.held }))
        (sym e) v
  bump_fails {s} {c} v (inr (lt, e)) = record {
    common = record {
      same_map = v.common.same_map;
      frames = v.common.frames;
      ledger = v.common.ledger;
      once = v.common.once;
    };
    inactive = v.inactive;
    no_lists = v.no_lists;
    aligned = omega (arith, e);
    small = omega (arith, e);
    passed = λ x h. let (i, holds, w) = v.passed x h in (i, holds, inl (before w));
  }
    where
      before :
          {i x : ℕ}
          → (i < s.buddy.cursor.region_idx)
            ⊎ ((i ≡ s.buddy.cursor.region_idx) × (x < s.buddy.cursor.next_addr))
          → i < c.region_idx
      before (inl lower) = omega (arith, lt)
      before (inr (same, _)) = omega (arith, lt, same)

  pub run_takes :
      {s : System} {a : ℕ} {b : Buddy}
      → Running rs s
      → Allocated s.buddy a b
      → Running rs (record { buddy = b; held = a ∷ s.held })
  run_takes {s} {a} {b} v t = record {
    common = record {
      same_map = t.same_map.0 ∙ v.common.same_map;
      frames = (
        record { aligned = t.aligned; after_zero_page = t.after_zero_page; physical = t.physical },
        v.common.frames,
      );
      ledger = omega (arith, t.ledger, v.common.ledger, held_count-cons a s.held);
      once = λ x. omega (arith, same x, v.common.once x);
    };
    active = t.active;
    sound = t.sound;
    mapped = λ x h. v.mapped x (omega (arith, same x));
  }
    where
      same :
          (x : ℕ)
          → coverage s.buddy.free_lists x + held_at s.held x
            ≡ coverage b.free_lists x + held_at (a ∷ s.held) x
      same x = omega (arith, t.moved x, held_at-cons a s.held x)

  pub run_returns :
      {s : System} (i : ℕ) {a : ℕ} {b : Buddy}
      → Running rs s
      → get_elem? s.held i ≡ some a
      → Freed s.buddy a b
      → Running rs (record { buddy = b; held = swap_remove s.held i })
  run_returns {s} i {a} {b} v e t = record {
    common = record {
      same_map = t.same_map.0 ∙ v.common.same_map;
      frames = All-swap_remove IsFrame s.held i v.common.frames;
      ledger = omega (arith, t.ledger, v.common.ledger, sum_by-swap_remove (λ _. 1) s.held i e);
      once = λ x. omega (arith, same x, v.common.once x);
    };
    active = t.active;
    sound = t.sound;
    mapped = λ x h. v.mapped x (omega (arith, same x));
  }
    where
      same :
          (x : ℕ)
          → coverage s.buddy.free_lists x + held_at s.held x
            ≡ coverage b.free_lists x + held_at (swap_remove s.held i) x
      same x =
          omega (arith, t.moved x, sum_by-swap_remove (λ p. within p (p + frame_size) x) s.held i e)

activated : Buddy → FreeLists → Buddy
activated b lists = record b {
  cursor = record { region_idx = length b.regions; next_addr = u64_max };
  active = true;
  free_lists = lists;
}

activate_lem :
    (b : Buddy) {lists : FreeLists}
    → b.active ≡ false
    → carve_regions b.cursor 0 b.regions b.free_lists ≡ done lists
    → activate b ≡ done (activated b lists)
unfolding activate activated
activate_lem b inactive e = ground arith

no_blocks : {lists : FreeLists} → lists ≡ (λ _. []) → AreBlocks lists
no_blocks e = subst AreBlocks (sym e) (λ o. tt)

module _ {rs : List Region} (disjoint : AreDisjoint rs) (phys : All IsPhysical rs) where
  pub bump_activates :
      {s : System}
      → Bumping rs s
      → (b : Buddy) × (activate s.buddy ≡ done b) × Running rs (record { buddy = b; held = s.held })
  unfolding activated
  bump_activates {s} v =
      let c = s.buddy.cursor in
      let (lists, e, l) =
        carve_regions-Listed c v.small 0 rs phys s.buddy.free_lists (no_blocks v.no_lists) in
      let e' = ap (λ m. carve_regions c 0 m s.buddy.free_lists) v.common.same_map ∙ e in
      (activated s.buddy lists, activate_lem s.buddy v.inactive e', running lists l)
    where
      listed :
          (lists : FreeLists)
          → Listed (shares s.buddy.cursor 0 rs) s.buddy.free_lists lists
          → (x : ℕ) → coverage lists x ≡ shares s.buddy.cursor 0 rs x
      listed lists l x = omega (arith, l.listed x, no_coverage v.no_lists x)

      unheld : (x : ℕ) → 0 < shares s.buddy.cursor 0 rs x → held_at s.held x ≡ 0
      unheld x h = elim (dec_lt 0 (held_at s.held x)) [
        | yes held ↦ absurd (
            Unpassed-not_Consumed disjoint (shares-Unpassed s.buddy.cursor 0 rs x h)
              (v.passed x held))
        | no none_held ↦ omega arith
      ]

      running :
          (lists : FreeLists)
          → Listed (shares s.buddy.cursor 0 rs) s.buddy.free_lists lists
          → Running rs (record { buddy = activated s.buddy lists; held = s.held })
      running lists l = record {
        common = record {
          same_map = v.common.same_map;
          frames = v.common.frames;
          ledger = v.common.ledger;
          once = λ x. elim (dec_lt 0 (shares s.buddy.cursor 0 rs x)) [
            | yes shared ↦ omega (
              arith,
              listed lists l x,
              unheld x shared,
              shares-le-one s.buddy.cursor 0 rs x disjoint,
            )
            | no unshared ↦ omega (arith, listed lists l x, v.common.once x)
          ];
        };
        active = refl;
        sound = record {
          blocks = l.blocks;
          zero_page = λ x h. elim (dec_lt 0 (shares s.buddy.cursor 0 rs x)) [
            | yes shared ↦
                absurd
                  (omega (arith, (shares-Unpassed s.buddy.cursor 0 rs x shared).after_zero_page))
            | no unshared ↦ omega (arith, listed lists l x)
          ];
        };
        mapped = λ x h. elim (dec_lt 0 (shares s.buddy.cursor 0 rs x)) [
          | yes shared ↦ let u = shares-Unpassed s.buddy.cursor 0 rs x shared in (u.index, u.holds)
          | no unshared ↦
              let (i, holds, _) = v.passed x (omega (arith, h, listed lists l x)) in (i, holds)
        ];
      }
