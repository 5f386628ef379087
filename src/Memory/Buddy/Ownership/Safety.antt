-- ===== src/Memory/Buddy/Ownership/Safety.antt =====
-- What holds whatever calls the kernel makes of the allocator.
use rusty_core.Prelude.{
  ℕ, ◌+◌, ◌%◌, ◌<◌, ◌≤◌, ◌≡◌, ◌⊎◌, inl, inr, subst, sym, some_inj, u64_mod, true, false, List, ◌∷◌,
  Option, none, some, arith, get_elem?, done, panics, Outcome,
}
use rusty_core.Prelude.Vecs.{All, All-get, le-sum_by}
use rusty_core.Memory.Buddy.Weights.{within}
use rusty_core.Memory.Regions.{Region, Holds, AreDisjoint, frame_size, min_addr}
use rusty_core.Memory.Cursor.{Cursor}
use rusty_core.Memory.Cursor.Walks.{Found, Rested}
use rusty_core.Memory.Buddy.{Buddy, free_frames, allocate_frame, deallocate_frame, activate}
use rusty_core.Memory.Buddy.Frames.{
  IsSound, HasRoom, Allocated, Freed, allocate_frame-Allocated, deallocate_frame-Freed,
}
use rusty_core.Memory.Buddy.BumpMode.{allocate_frame-bump}
use rusty_core.Memory.Buddy.Activation.{IsPhysical}
use rusty_core.Memory.Buddy.Ownership.{
  System, Step, takes, fails, activates, returns, Reach, booted, later, owners, IsFrame, Common,
  Running, Inv, held_at,
}
use rusty_core.Memory.Buddy.Ownership.Tally.{held_few}
use rusty_core.Memory.Buddy.Ownership.Invariant.{
  bump_takes, bump_fails, bump_activates, run_takes, run_returns, boot-Inv,
}

-- Two results of one call are the same.
same_result {ℓ} :
    {A : Type ℓ} {a a' : Option ℕ} {b b' : A} {o : Outcome (Option ℕ × A)}
    → o ≡ done (a, b)
    → o ≡ done (a', b')
    → (a ≡ a') × (b ≡ b')
same_result p q = (cc, cc)

same_done {ℓ} : {A : Type ℓ} {b b' : A} {o : Outcome A} → o ≡ done b → o ≡ done b' → b ≡ b'
same_done p q = cc

deallocate_frame-inactive : (b : Buddy) (a : ℕ) → b.active ≡ false → deallocate_frame b a ≡ panics
unfolding deallocate_frame
deallocate_frame-inactive b a e = rw e

activate-active : (b : Buddy) → b.active ≡ true → activate b ≡ panics
unfolding activate
activate-active b e = rw e

module _ {rs : List Region} (disjoint : AreDisjoint rs) (phys : All IsPhysical rs) where
  -- The ledger can always count one frame more.
  ledger-room : {s : System} → Common rs s → s.buddy.allocated + 1 < u64_mod
  ledger-room {s} common =
      omega
        (arith, common.ledger, held_few s.held common.frames (λ x. omega (arith, common.once x)))

  Running-HasRoom : {s : System} → Running rs s → HasRoom s.buddy
  Running-HasRoom {s} v = record {
    low = λ x h.
        let (i, holds) = v.mapped x (omega arith) in
        omega (arith, holds.high, (All-get IsPhysical rs i phys holds.found).end_in);
    ledger = ledger-room v.common;
  }

  -- What one request does to the system, in either phase.
  abbrev Requested : System → Type 0
  Requested s =
      ((b : Buddy) × (allocate_frame s.buddy ≡ done (none, b))
        × Inv rs (record { buddy = b; held = s.held }))
      ⊎ ((a : ℕ) × (b : Buddy) × (allocate_frame s.buddy ≡ done (some a, b))
          × Inv rs (record { buddy = b; held = a ∷ s.held }))

  requested : {s : System} → Inv rs s → Requested s
  requested {s} (inl v) = go (
      allocate_frame-bump s.buddy v.inactive (subst (All IsPhysical) (sym v.common.same_map) phys)
        (ledger-room v.common) v.aligned)
    where
      go :
          (c : Cursor) × (((allocate_frame s.buddy ≡ done (none, record s.buddy { cursor = c }))
                × Rested s.buddy.cursor c)
              ⊎ ((a : ℕ) × (allocate_frame s.buddy
                    ≡ done
                        (some a, record s.buddy { cursor = c; allocated = s.buddy.allocated + 1 }))
                  × Found s.buddy.regions s.buddy.cursor a c))
          → Requested s
      go (c, inl (e, r)) = inl (_, e, inl (bump_fails disjoint phys v r))
      go (c, inr (a, e, f)) = inr (
        a,
        _,
        e,
        inl (
            bump_takes disjoint phys v
              (subst (λ m. Found m s.buddy.cursor a c) v.common.same_map f)),
      )
  requested {s} (inr v) = go (allocate_frame-Allocated v.sound (Running-HasRoom v) v.active)
    where
      go :
          ((free_frames s.buddy ≡ 0) × (allocate_frame s.buddy ≡ done (none, s.buddy)))
            ⊎ ((a : ℕ) × (b : Buddy) × (allocate_frame s.buddy ≡ done (some a, b))
                × Allocated s.buddy a b)
          → Requested s
      go (inl (_, e)) = inl (_, e, inr v)
      go (inr (a, b, e, t)) = inr (a, b, e, inr (run_takes disjoint phys v t))

  Step-Inv : {s t : System} → Step s t → Inv rs s → Inv rs t
  Step-Inv {s} (takes {a} {b} e) v = go (requested v)
    where
      go : Requested s → Inv rs (record { buddy = b; held = a ∷ s.held })
      go (inl (b', e', v')) = cc
      go (inr (a', b', e', v')) =
          subst (λ o. Inv rs (record { buddy = o; held = a ∷ s.held })) (same_result e' e).1
            (subst (λ p. Inv rs (record { buddy = b'; held = p ∷ s.held }))
              (some_inj (same_result e' e).0) v')
  Step-Inv {s} (fails {b} e) v = go (requested v)
    where
      go : Requested s → Inv rs (record { buddy = b; held = s.held })
      go (inl (b', e', v')) =
          subst (λ o. Inv rs (record { buddy = o; held = s.held })) (same_result e' e).1 v'
      go (inr (a', b', e', v')) = cc
  Step-Inv {s} (activates {b} e) (inl v) =
      let (b', e', v') = bump_activates disjoint phys v in
      inr (subst (λ o. Running rs (record { buddy = o; held = s.held })) (same_done e' e) v')
  Step-Inv {s} (activates {b} e) (inr v) = cc (activate-active s.buddy v.active)
  Step-Inv {s} (returns i {a} {b} g e) (inl v) = cc (deallocate_frame-inactive s.buddy a v.inactive)
  Step-Inv {s} (returns i {a} {b} g e) (inr v) =
      let frame = All-get IsFrame s.held i v.common.frames g in
      let (b', e', t) =
        deallocate_frame-Freed v.sound v.active a frame.aligned frame.after_zero_page in
      inr (run_returns disjoint phys i v g (subst (Freed s.buddy a) (same_done e' e) t))

  Reach-Inv : {s : System} → Reach rs s → Inv rs s
  Reach-Inv booted = boot-Inv rs
  Reach-Inv (later r st) = Step-Inv st (Reach-Inv r)

  -- The activated allocator is sound in every reachable state.
  pub reached-IsSound : {s : System} → Reach rs s → s.buddy.active ≡ true → IsSound s.buddy
  reached-IsSound {s} r act = go (Reach-Inv r)
    where
      go : Inv rs s → IsSound s.buddy
      go (inl v) = cc (v.inactive)
      go (inr v) = v.sound

  pub reached-HasRoom : {s : System} → Reach rs s → s.buddy.active ≡ true → HasRoom s.buddy
  reached-HasRoom {s} r act = go (Reach-Inv r)
    where
      go : Inv rs s → HasRoom s.buddy
      go (inl v) = cc (v.inactive)
      go (inr v) = Running-HasRoom v

  -- On a memory map of disjoint regions below the physical address limit, whatever calls the kernel
  -- has made, in bump mode and after `activate`, no address has two owners: it is in one held frame,
  -- or in one free block, or in neither.
  pub owners-le-one : {s : System} → Reach rs s → (x : ℕ) → owners s x ≤ 1
  owners-le-one {s} r x = go (Reach-Inv r)
    where
      go : Inv rs s → owners s x ≤ 1
      go (inl v) = v.common.once x
      go (inr v) = v.common.once x

  -- On a memory map of disjoint regions below the physical address limit, and in every state that the
  -- kernel's calls reach, each frame that the kernel holds starts at a multiple of the frame size past
  -- the zero page, and each of its addresses lies in a usable region of the map.
  pub held_frames :
      {s : System}
      → Reach rs s
      → (i a : ℕ) → get_elem? s.held i ≡ some a
      → (a % frame_size ≡ 0)
        × (min_addr ≤ a)
        × ((x : ℕ) → a ≤ x → x < a + frame_size → (j : ℕ) × Holds rs j x)
  held_frames {s} r i a e = go (Reach-Inv r)
    where
      inside : (x : ℕ) → a ≤ x → x < a + frame_size → within a (a + frame_size) x ≡ 1
      inside x lo hi = ground arith

      held : (x : ℕ) → a ≤ x → x < a + frame_size → 0 < held_at s.held x
      held x lo hi =
          omega (arith, inside x lo hi, le-sum_by (λ p. within p (p + frame_size) x) s.held i e)

      go :
          Inv rs s
          → (a % frame_size ≡ 0)
            × (min_addr ≤ a)
            × ((x : ℕ) → a ≤ x → x < a + frame_size → (j : ℕ) × Holds rs j x)
      go (inl v) =
          let f = All-get IsFrame s.held i v.common.frames e in
          (
            f.aligned,
            f.after_zero_page,
            λ x lo hi. let (j, h, _) = v.passed x (held x lo hi) in (j, h),
          )
      go (inr v) =
          let f = All-get IsFrame s.held i v.common.frames e in
          (f.aligned, f.after_zero_page, λ x lo hi. v.mapped x (omega (arith, held x lo hi)))

  -- On a memory map of disjoint regions below the physical address limit, and in every state that the
  -- kernel's calls reach, no call in its place panics or runs on: a request returns, `activate` returns
  -- if the allocator is not active yet, and the return of a held frame returns if it is.
  pub calls_return :
      {s : System}
      → Reach rs s
      → ((o : Option ℕ) × (b : Buddy) × (allocate_frame s.buddy ≡ done (o, b)))
        × (s.buddy.active ≡ false → (b : Buddy) × (activate s.buddy ≡ done b))
        × ((i a : ℕ)
            → s.buddy.active ≡ true
            → get_elem? s.held i ≡ some a
            → (b : Buddy) × (deallocate_frame s.buddy a ≡ done b))
  calls_return {s} r = (request (requested (Reach-Inv r)), start (Reach-Inv r), give (Reach-Inv r))
    where
      request : Requested s → (o : Option ℕ) × (b : Buddy) × (allocate_frame s.buddy ≡ done (o, b))
      request (inl (b, e, v)) = (none, b, e)
      request (inr (a, b, e, v)) = (some a, b, e)

      start : Inv rs s → s.buddy.active ≡ false → (b : Buddy) × (activate s.buddy ≡ done b)
      start (inl v) _ = let (b, e, _) = bump_activates disjoint phys v in (b, e)
      start (inr v) h = cc (v.active)

      give :
          Inv rs s
          → (i a : ℕ) → s.buddy.active ≡ true
          → get_elem? s.held i ≡ some a
          → (b : Buddy) × (deallocate_frame s.buddy a ≡ done b)
      give (inl v) i a h e = cc (v.inactive)
      give (inr v) i a h e =
          let f = All-get IsFrame s.held i v.common.frames e in
          let (b, e', _) = deallocate_frame-Freed v.sound v.active a f.aligned f.after_zero_page in
          (b, e')
