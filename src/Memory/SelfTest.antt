-- ===== src/Memory/SelfTest.antt =====
-- `self_test_reclaim` of kernel/src/memory.rs (feature alloc-buddy): take a frame, give it back, and
-- compare the counts.
use rusty_core.Prelude.{
  ℕ, ◌+◌, ◌<◌, ◌≡◌, ◌⊎◌, inl, inr, true, Option, none, some, arith, Outcome, done, panics, ◌==◌,
  ◌>>=◌, ◌>>◌, assert,
}
use rusty_core.Memory.Buddy.{Buddy, free_frames, allocate_frame, deallocate_frame}
use rusty_core.Memory.Buddy.Weights.{coverage}
use rusty_core.Memory.Buddy.Frames.{
  IsSound, HasRoom, Allocated, allocate_frame-Allocated, deallocate_frame-Freed,
}

-- `.expect(…)`.
expect : Option ℕ → Outcome ℕ
expect none = panics
expect (some a) = done a

unfoldable pub self_test_reclaim : Buddy → Outcome Buddy
unfolding expect
self_test_reclaim b = do
  let before = free_frames b
  (frame, b') ← allocate_frame b
  a ← expect frame
  assert (before == free_frames b' + 1)
  b'' ← deallocate_frame b' a
  assert (before == free_frames b'')
  done b''

self_test_run :
    (b b' b'' : Buddy) (a : ℕ)
    → allocate_frame b ≡ done (some a, b')
    → deallocate_frame b' a ≡ done b''
    → free_frames b ≡ free_frames b' + 1
    → free_frames b ≡ free_frames b''
    → self_test_reclaim b ≡ done b''
unfolding self_test_reclaim
self_test_run b b' b'' a e e' c c' = ground arith

-- In a sound, activated allocator whose free blocks lie below the physical limit, whose ledger can count one frame
-- more, and which has a free frame, the self-test passes: it leaves as many frames free, the
-- same addresses free, and the ledger as it was.
pub self_test_reclaim-passes :
    (b : Buddy)
    → IsSound b
    → HasRoom b
    → b.active ≡ true
    → 0 < free_frames b
    → (b' : Buddy) × (self_test_reclaim b ≡ done b')
      × (free_frames b' ≡ free_frames b)
      × ((x : ℕ) → coverage b'.free_lists x ≡ coverage b.free_lists x)
      × (b'.allocated ≡ b.allocated)
unfolding self_test_reclaim
self_test_reclaim-passes b sound has_room act some_free =
    go (allocate_frame-Allocated sound has_room act)
  where
    go :
        ((free_frames b ≡ 0) × (allocate_frame b ≡ done (none, b)))
          ⊎ ((a : ℕ) × (b' : Buddy) × (allocate_frame b ≡ done (some a, b')) × Allocated b a b')
        → (b' : Buddy) × (self_test_reclaim b ≡ done b')
          × (free_frames b' ≡ free_frames b)
          × ((x : ℕ) → coverage b'.free_lists x ≡ coverage b.free_lists x)
          × (b'.allocated ≡ b.allocated)
    go (inl (none_free, _)) = absurd (omega arith)
    go (inr (a, b', e, t)) =
        let (b'', e', f) = deallocate_frame-Freed t.sound t.active a t.aligned t.after_zero_page in
        (
          b'',
          self_test_run b b' b'' a e e' t.counted (omega (arith, t.counted, f.counted)),
          omega (arith, t.counted, f.counted),
          λ x. omega (arith, t.moved x, f.moved x),
          omega (arith, t.ledger, f.ledger),
        )
