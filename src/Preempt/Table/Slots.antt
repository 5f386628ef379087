-- ===== src/Preempt/Table/Slots.antt =====
-- The slots of the table: which are occupied, and what their frames are.
use rusty_core.Prelude.{
  subst, ℕ, zero, suc, ◌+◌, ◌<◌, ◌≤◌, ◌≡◌, ◌⊎◌, refl, inl, inr, true, false, done, panics, arith,
  Bool-cases,
}
use native.Mathlib.Decide.{ℕ_discrete}
use rusty_core.Preempt.Bitmap.{occupied}
use rusty_core.Preempt.Table.{Table, max_tasks, first_free, alloc_slot}

-- `alloc_slot` returns the lowest free slot, or panics where all are occupied.
pub record LowestFree (used idx from : ℕ) : Type 0 where
  pub free : occupied used idx ≡ false
  pub above : from ≤ idx
  pub below : (j : ℕ) → from ≤ j → j < idx → occupied used j ≡ true

first_free-cases :
    (left from used : ℕ)
    → ((idx : ℕ) × (first_free left from used ≡ done idx)
        × (idx < from + left)
        × LowestFree used idx from)
      ⊎ ((first_free left from used ≡ panics)
          × ((j : ℕ) → from ≤ j → j < from + left → occupied used j ≡ true))
unfolding first_free
first_free-cases zero from used = inr (refl, λ j lo hi. absurd (omega arith))
first_free-cases (suc left) from used = elim (Bool-cases (occupied used from)) [
  | inr free ↦ inl (
    from,
    rw free,
    omega arith,
    record { free = free; above = omega arith; below = λ j lo hi. absurd (omega arith) },
  )
  | inl taken ↦ rw taken (go taken (first_free-cases left (from + 1) used))
]
  where
    at :
        (j : ℕ)
        → from ≤ j
        → occupied used from ≡ true
        → ((from + 1 ≤ j) → occupied used j ≡ true)
        → occupied used j ≡ true
    at j lo here after = elim (ℕ_discrete from j) [
      | yes e ↦ subst (λ k. occupied used k ≡ true) e here
      | no ne ↦ after (omega arith)
    ]

    go :
        occupied used from ≡ true
        → ((idx : ℕ) × (first_free left (from + 1) used ≡ done idx)
            × (idx < from + 1 + left)
            × LowestFree used idx (from + 1))
          ⊎ ((first_free left (from + 1) used ≡ panics)
              × ((j : ℕ) → from + 1 ≤ j → j < from + 1 + left → occupied used j ≡ true))
        → ((idx : ℕ) × (first_free left (from + 1) used ≡ done idx)
            × (idx < from + suc left)
            × LowestFree used idx from)
          ⊎ ((first_free left (from + 1) used ≡ panics)
              × ((j : ℕ) → from ≤ j → j < from + suc left → occupied used j ≡ true))
    go here (inl (idx, e, lt, l)) = inl (
      idx,
      e,
      omega arith,
      record {
        free = l.free;
        above = omega (arith, l.above);
        below = λ j lo hi. at j lo here (λ up. l.below j up hi);
      },
    )
    go here (inr (e, all)) = inr (e, λ j lo hi. at j lo here (λ up. all j up (omega arith)))

-- `alloc_slot` returns the lowest free slot of the table, and panics exactly when all slots are occupied.
pub alloc_slot-lowest :
    (t : Table)
    → ((idx : ℕ) × (alloc_slot t ≡ done idx)
        × (idx < max_tasks)
        × (occupied t.slot_used idx ≡ false)
        × ((j : ℕ) → j < idx → occupied t.slot_used j ≡ true))
      ⊎ ((alloc_slot t ≡ panics) × ((j : ℕ) → j < max_tasks → occupied t.slot_used j ≡ true))
unfolding alloc_slot
alloc_slot-lowest t = go (first_free-cases max_tasks 0 t.slot_used)
  where
    go :
        ((idx : ℕ) × (first_free max_tasks 0 t.slot_used ≡ done idx)
            × (idx < 0 + max_tasks)
            × LowestFree t.slot_used idx 0)
          ⊎ ((first_free max_tasks 0 t.slot_used ≡ panics)
              × ((j : ℕ) → 0 ≤ j → j < 0 + max_tasks → occupied t.slot_used j ≡ true))
        → ((idx : ℕ) × (alloc_slot t ≡ done idx)
            × (idx < max_tasks)
            × (occupied t.slot_used idx ≡ false)
            × ((j : ℕ) → j < idx → occupied t.slot_used j ≡ true))
          ⊎ ((alloc_slot t ≡ panics) × ((j : ℕ) → j < max_tasks → occupied t.slot_used j ≡ true))
    go (inl (idx, e, lt, l)) = inl (idx, e, omega arith, l.free, λ j hi. l.below j (omega arith) hi)
    go (inr (e, all)) = inr (e, λ j hi. all j (omega arith) (omega arith))
