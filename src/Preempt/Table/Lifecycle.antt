-- ===== src/Preempt/Table/Lifecycle.antt =====
-- The life of a slot: registered with a valid frame and its window, and released.
use rusty_core.Prelude.{
  ℕ, ◌<◌, ◌≡◌, ◌≢◌, refl, inl, inr, true, false, ◌==◌, not, ◌&&◌, ◌||◌, update, Outcome, done,
  ◌>>=◌, arith, Bool-cases, ==_iff, subst, ap, ◌∙◌, sym,
}
use native.Mathlib.Decide.{ℕ_discrete}
use rusty_core.Preempt.Frame.{FullFrame, zero_frame, valid_for}
use rusty_core.Preempt.Bitmap.{
  occupied, occupy, vacate, occupied-occupy, occupied-vacate, occupied-none, occupy-lt, vacate-lt,
}
use rusty_core.Preempt.Table.{
  Table, max_tasks, boot_table, register_task, set_slot_bounds, slot_bounds, frame_ok,
  unregister_task,
}

-- The frame of slot `i` is fit for an `iretq` onto the window recorded for the slot.
pub record IsLive (t : Table) (i : ℕ) : Type 0 where
  pub valid : valid_for (t.task_frames i) (t.bounds i).0 (t.bounds i).1 ≡ true
  pub window : (t.bounds i).0 ≢ 0

-- An occupied slot is live, and a free one holds the invalid template.
pub record IsConsistent (t : Table) : Type 0 where
  pub byte : t.slot_used < 256
  pub live : (i : ℕ) → i < max_tasks → occupied t.slot_used i ≡ true → IsLive t i
  pub retired :
      (i : ℕ) → i < max_tasks → occupied t.slot_used i ≡ false → t.task_frames i ≡ zero_frame

pub boot_table-IsConsistent : IsConsistent boot_table
boot_table-IsConsistent = record {
  byte = omega arith;
  live = λ i h o. cc (occupied-none i);
  retired = λ i h o. refl;
}

-- What `Task::new` does with the table once it has a slot: the frame, then its window.
unfoldable pub admit : ℕ → FullFrame → ℕ → ℕ → Table → Outcome Table
unfolding register_task set_slot_bounds
admit idx frame bottom top t = register_task idx frame t >>= λ t'. set_slot_bounds idx bottom top t'

zero_frame-invalid : (bottom top : ℕ) → valid_for zero_frame bottom top ≡ false
unfolding valid_for
zero_frame-invalid bottom top = refl

module _ (t : Table) (i : ℕ) (h : i < max_tasks) where
  frame_ok-window :
      (t.bounds i).0 ≢ 0
      → frame_ok i t ≡ done (valid_for (t.task_frames i) (t.bounds i).0 (t.bounds i).1)
  unfolding frame_ok slot_bounds
  frame_ok-window ne = ground arith

  frame_ok-no_window : (t.bounds i).0 ≡ 0 → frame_ok i t ≡ done false
  unfolding frame_ok slot_bounds
  frame_ok-no_window e = ground arith

  -- On a consistent table `frame_ok` accepts exactly the occupied slots, whatever window a released slot
  -- has left behind.
  pub frame_ok-occupied : IsConsistent t → frame_ok i t ≡ done (occupied t.slot_used i)
  frame_ok-occupied c = elim (Bool-cases (occupied t.slot_used i)) [
    | inl used ↦
        let live = c.live i h used in frame_ok-window live.window ∙ ap done (live.valid ∙ sym used)
    | inr free ↦ elim (ℕ_discrete (t.bounds i).0 0) [
      | yes e ↦ frame_ok-no_window e ∙ ap done (sym free)
      | no ne ↦
          frame_ok-window ne
          ∙ ap done (
              ap (λ f. valid_for f (t.bounds i).0 (t.bounds i).1) (c.retired i h free)
              ∙ zero_frame-invalid (t.bounds i).0 (t.bounds i).1
              ∙ sym free)
    ]
  ]

-- Admission of a valid frame to a free slot keeps the table consistent and occupies that slot alone.
pub admit-IsConsistent :
    (t : Table) (idx bottom top : ℕ) (frame : FullFrame)
    → IsConsistent t
    → idx < max_tasks
    → occupied t.slot_used idx ≡ false
    → 0 < bottom
    → bottom < top
    → valid_for frame bottom top ≡ true
    → (t' : Table) × (admit idx frame bottom top t ≡ done t')
      × IsConsistent t'
      × ((j : ℕ) → j < max_tasks → occupied t'.slot_used j ≡ ((idx == j) || occupied t.slot_used j))
unfolding admit
admit-IsConsistent t idx bottom top frame c h free pos lt valid = (
  t',
  ground arith,
  record { byte = occupy-lt t.slot_used idx c.byte (omega arith); live = live; retired = retired },
  bits,
)
  where
    t' : Table
    t' = record t {
      task_frames = update t.task_frames idx frame;
      slot_used = occupy t.slot_used idx;
      bounds = update t.bounds idx (bottom, top);
    }

    bits :
        (j : ℕ) → j < max_tasks → occupied t'.slot_used j ≡ ((idx == j) || occupied t.slot_used j)
    bits j hj = occupied-occupy t.slot_used idx j c.byte (omega arith) (omega arith)

    live : (j : ℕ) → j < max_tasks → occupied t'.slot_used j ≡ true → IsLive t' j
    live j hj o = elim (Bool-cases (idx == j)) [
      | inl e ↦ record { valid = rw e valid; window = rw e (omega arith) }
      | inr e ↦
          let old = c.live j hj (ground (arith, bits j hj)) in
          record { valid = rw e old.valid; window = rw e old.window }
    ]

    retired :
        (j : ℕ) → j < max_tasks → occupied t'.slot_used j ≡ false → t'.task_frames j ≡ zero_frame
    retired j hj o = ground (arith, bits j hj, c.retired j hj)

-- Release of an occupied slot keeps the table consistent, frees that slot alone and wipes its frame.
-- The window of the slot stays recorded.
pub unregister_task-IsConsistent :
    (t : Table) (idx : ℕ)
    → IsConsistent t
    → idx < max_tasks
    → occupied t.slot_used idx ≡ true
    → (t' : Table) × (unregister_task idx t ≡ done t')
      × IsConsistent t'
      × (t'.task_frames idx ≡ zero_frame)
      × (slot_bounds idx t' ≡ slot_bounds idx t)
      × ((j : ℕ)
          → j < max_tasks
          → occupied t'.slot_used j ≡ (not (idx == j) && occupied t.slot_used j))
unfolding unregister_task slot_bounds
unregister_task-IsConsistent t idx c h used = (
  t',
  ground arith,
  record {
    byte = vacate-lt t.slot_used idx c.byte (omega arith);
    live = live;
    retired = λ j hj o. ground (arith, bits j hj, c.retired j hj);
  },
  ground arith,
  refl,
  bits,
)
  where
    t' : Table
    t' = record t {
      task_frames = update t.task_frames idx zero_frame;
      slot_used = vacate t.slot_used idx;
    }

    bits :
        (j : ℕ)
        → j < max_tasks
        → occupied t'.slot_used j ≡ (not (idx == j) && occupied t.slot_used j)
    bits j hj = occupied-vacate t.slot_used idx j c.byte (omega arith) (omega arith)

    live : (j : ℕ) → j < max_tasks → occupied t'.slot_used j ≡ true → IsLive t' j
    live j hj o = elim (Bool-cases (idx == j)) [
      | inl e ↦ absurd (cc-false j hj o e)
      | inr e ↦
          let old = c.live j hj (ground (arith, bits j hj)) in
          record { valid = rw e old.valid; window = old.window }
    ]
      where
        cc-false : (j : ℕ) → j < max_tasks → occupied t'.slot_used j ≡ true → (idx == j) ≡ true → ⊥
        cc-false j hj o e = ground (arith, bits j hj)

-- A frame that is valid on the window of its occupied slot may replace the frame there.
pub restash-IsConsistent :
    (t t' : Table) (f : FullFrame)
    → IsConsistent t
    → occupied t.slot_used t.current_idx ≡ true
    → valid_for f (t.bounds t.current_idx).0 (t.bounds t.current_idx).1 ≡ true
    → t'.task_frames ≡ update t.task_frames t.current_idx f
    → t'.bounds ≡ t.bounds
    → t'.slot_used ≡ t.slot_used
    → IsConsistent t'
restash-IsConsistent t t' f c o v frames bounds used = record {
  byte = rw used c.byte;
  live = live;
  retired = retired;
}
  where
    live : (j : ℕ) → j < max_tasks → occupied t'.slot_used j ≡ true → IsLive t' j
    live j hj o' = elim (Bool-cases (t.current_idx == j)) [
      | inl e ↦
          let here = (==_iff t.current_idx j).0 e in
          let old = c.live j hj (subst (λ u. occupied u j ≡ true) used o') in
          record {
            valid =
                rw (frames, bounds, e)
                  (subst (λ k. valid_for f (t.bounds k).0 (t.bounds k).1 ≡ true) here v);
            window = rw bounds old.window;
          }
      | inr e ↦
          let old = c.live j hj (subst (λ u. occupied u j ≡ true) used o') in
          record { valid = rw (frames, bounds, e) old.valid; window = rw bounds old.window }
    ]

    retired :
        (j : ℕ) → j < max_tasks → occupied t'.slot_used j ≡ false → t'.task_frames j ≡ zero_frame
    retired j hj o' = elim (Bool-cases (t.current_idx == j)) [
      | inl e ↦ absurd (occupied-there j e o')
      | inr e ↦ rw (frames, e) (c.retired j hj (subst (λ u. occupied u j ≡ false) used o'))
    ]
      where
        occupied-there : (j : ℕ) → (t.current_idx == j) ≡ true → occupied t'.slot_used j ≡ false → ⊥
        occupied-there j e o' = ground (arith, (==_iff t.current_idx j).0 e)
