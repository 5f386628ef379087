-- ===== src/Irq/SelfTest.antt =====
-- kernel/src/syscall.rs: two software interrupts, and what the counter then has to say.
use rusty_core.Prelude.{
  ℕ, ◌+◌, ◌<◌, ◌≡◌, ◌==◌, eq-false, refl, Outcome, done, panics, ◌>>=◌, ◌>>◌, assert, List, ◌∷◌,
  ◌++◌, length, inl, inr, arith,
}
use rusty_core.Prelude.Vecs.{All}
use rusty_core.Irq.{Handler, Irq, syscall_vector}
use rusty_core.Irq.Table.{history}
use rusty_core.Irq.History.{
  IsServed, IsRoomy, IsServedBy, count, count-append, All-append, history-IsServedBy,
}

-- `self_test`; `between` and `after` are the interrupts that the hardware raises after the first and the
-- second `int 0x80`, up to the load of the counter.
unfoldable pub self_test : ℕ → Handler → List ℕ → List ℕ → Irq → Outcome Irq
self_test frames fault between after s = do
  s2 ← history frames fault ((syscall_vector ∷ between) ++ (syscall_vector ∷ after)) s
  assert (s2.syscall_hits == 2)
  done s2

-- The hardware raises no software interrupt.
abbrev pub IsHardware : List ℕ → Type 0
IsHardware vs = All IsServed vs × (count 0x80 vs ≡ 0)

-- All that arrives.
abbrev pub fired : List ℕ → List ℕ → List ℕ
fired between after = (syscall_vector ∷ between) ++ (syscall_vector ∷ after)

fired-IsServed :
    (between after : List ℕ)
    → IsHardware between
    → IsHardware after
    → All IsServed (fired between after)
fired-IsServed between after hb ha =
    (number, All-append between (syscall_vector ∷ after) hb.0 (number, ha.0))
  where
    number : IsServed 0x80
    number = inr (inr (inr (inr (inr (inl refl)))))

module _ (frames : ℕ) (fault : Handler) (between after : List ℕ) (s : Irq) where
  -- Whatever the hardware raises meanwhile, the self-test passes when no system call was made before it,
  -- with a count of two and the processor as it was; after any earlier call it panics.
  pub self_test-passes :
      IsHardware between
      → IsHardware after
      → IsRoomy (length (fired between after)) s
      → (s.syscall_hits ≡ 0
          → (s2 : Irq) × (self_test frames fault between after s ≡ done s2)
            × (s2.syscall_hits ≡ 2)
            × IsServedBy (fired between after) s s2)
        × (0 < s.syscall_hits → self_test frames fault between after s ≡ panics)
  unfolding self_test
  self_test-passes hb ha roomy =
      let (s2, ran, served) =
        history-IsServedBy frames fault (fired between after) s (fired-IsServed between after hb ha)
          roomy in
      let hits : s2.syscall_hits ≡ s.syscall_hits + 2 = omega (
        arith,
        served.counted.syscalls,
        hb.1,
        ha.1,
        count-append 0x80 (syscall_vector ∷ between) (syscall_vector ∷ after),
      ) in
      (
        λ none. (s2, rw (ran, ◌>>=◌, hits, none) refl, omega arith, served),
        λ some. rw (ran, ◌>>=◌, eq-false s2.syscall_hits 2 (λ e. omega arith)) refl,
      )
