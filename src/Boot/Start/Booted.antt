-- ===== src/Boot/Start/Booted.antt =====
-- What holds once `kernel_main` of kernel/src/main.rs has come to its soak, and that the rest of the bring-up
-- then comes to an end.
use rusty_core.Prelude.{
  ℕ, ◌<◌, ◌≡◌, refl, sym, ap, ◌∙◌, true, Bool-cases, inl, inr, ◌&&◌, Outcome, done, ◌>>=◌, assert,
  Ensures, bind-Ensures, ensured, arith, List, ◌∷◌, ◌++◌, ◌==◌, bit_and,
}
use rusty_core.Memory.Mapping.{map_mmio_window}
use rusty_core.Memory.Bringup.{Memory}
use rusty_core.Memory.Bringup
use rusty_core.Segments.{new_tss}
use rusty_core.Segments
use rusty_core.Apic.{Apic, Probe, Result, Fault, poke, calibrate, start_periodic}
use rusty_core.Apic
use rusty_core.Irq.{Handler, Irq, syscall_vector}
use rusty_core.Irq.Table.{deliver, history}
use rusty_core.Irq.SelfTest.{self_test}
use rusty_core.Irq.Controllers.{init_pics, init_timer}
use rusty_core.Boot.Start.{
  Platform, Started, expect_ok, as_window, probed, init_apic, publish, try_irqs, start_clocks,
  start,
}
use rusty_core.Boot.Start.Masked.{calibrate-Keeps, deliver-Leaves, history-Leaves}
use rusty_core.Boot.Promotion.{Ending, bring_up}
use rusty_core.Boot.Promotion.Masters.{IsReady, IsClock, Settled, bring_up-Settled}

-- All that the calls before have left: the LAPIC is mapped and its rate known, and of the sixteen lines
-- of the PICs only IRQ 0 is open.
pub record IsTried (s : Irq) : Type 0 where
  pub mapped : 0 < s.apic.lapic_virt
  pub rated : 0 < s.apic.ticks_per_10ms
  pub masks : s.apic.master_mask ≡ 0xFE
  pub calls : s.syscall_hits ≡ 2

expect_periodic :
    (s s' : Apic)
    → expect_ok (start_periodic s) ≡ done s'
    → (0 < s'.lapic_virt) × (0 < s'.ticks_per_10ms) × (s'.master_mask ≡ s.master_mask)
unfolding start_periodic poke
expect_periodic s s' e = (ground arith, ground arith, ground arith)

expect_init :
    (p : Probe) (window : Result ℕ) (lvt : ℕ) (s s' : Apic)
    → expect_ok (Apic.init p window lvt s) ≡ done s'
    → (p.present ≡ true) × (p.enabled ≡ true) × (s'.master_mask ≡ s.master_mask)
unfolding Apic.init poke
expect_init p window lvt s s' e = (ground arith, ground arith, ground arith)

expect_mask :
    (A : Type 0) (r : Result A × Apic) (k : ℕ)
    → r.1.master_mask ≡ k
    → Ensures (λ s. s.master_mask ≡ k) (expect_ok r)
expect_mask A (Result.ok a, s) k e = e
expect_mask A (Result.err a, s) k e = tt

-- The system call counter that the assertion has seen.
self_test-Ensures :
    (frames : ℕ) (fault : Handler) (between after : List ℕ) (s : Irq) (k : ℕ)
    → s.apic.master_mask ≡ k
    → Ensures
        (λ s2. (s2.apic.master_mask ≡ k) × (s2.syscall_hits ≡ 2))
        (self_test frames fault between after s)
unfolding self_test
self_test-Ensures frames fault between after s k is_k =
    bind-Ensures _ (history frames fault ((syscall_vector ∷ between) ++ (syscall_vector ∷ after)) s)
      _
      (λ s2 e. bind-Ensures _ (assert (s2.syscall_hits == 2)) _ (λ _ two. (
        ensured _ _ s2 e (
            history-Leaves k frames fault ((syscall_vector ∷ between) ++ (syscall_vector ∷ after)) s
              is_k),
        ground arith,
      )))

module _ {M G : Type 0} (h : Platform M G) where
  try_irqs-IsTried : (s : Irq) → s.apic.master_mask ≡ 0xFE → Ensures IsTried (try_irqs h s)
  unfolding try_irqs
  try_irqs-IsTried s masks = bind-Ensures IsTried (deliver h.frames h.fault 3 s) tested (λ s2 e2.
      let m2 =
        ensured IsMasks (deliver h.frames h.fault 3 s) s2 e2
          (deliver-Leaves 0xFE h.frames h.fault 3 s masks) in
      let tests = self_test h.frames h.fault h.between h.after s2 in
      bind-Ensures IsTried tests counted (λ s3 e3.
        let m3 =
          ensured IsCalled tests s3 e3
            (self_test-Ensures h.frames h.fault h.between h.after s2 0xFE m2) in
        bind-Ensures IsTried (expect_ok (start_periodic s3.apic)) (ticking s3) (λ apic e4.
          let (mapped, rated, same) = expect_periodic s3.apic apic e4 in
          record { mapped = mapped; rated = rated; masks = same ∙ m3.0; calls = m3.1 })))
    where
      IsMasks : Irq → Type 0
      IsMasks t = t.apic.master_mask ≡ 0xFE

      IsCalled : Irq → Type 0
      IsCalled t = IsMasks t × (t.syscall_hits ≡ 2)

      ticking : Irq → Apic → Outcome Irq
      ticking t apic = done (record t { apic = apic })

      counted : Irq → Outcome Irq
      counted t = expect_ok (start_periodic t.apic) >>= ticking t

      tested : Irq → Outcome Irq
      tested t = self_test h.frames h.fault h.between h.after t >>= counted

  -- Whatever the mapper answers, the first part of the result is that of `Apic.init`.
  init_apic-init :
      (memory : Memory M) (s : Apic)
      → Ensures
          (λ r. (w : Result ℕ) × (r.0 ≡ Apic.init (probed h) w h.lvt s))
          (init_apic h memory s)
  unfolding init_apic
  init_apic-init memory s = elim (Bool-cases ((probed h).present && (probed h).enabled)) [
    | inl on ↦ rw on (
        bind-Ensures _ (map_mmio_window h.paging (probed h).base memory.mapper memory.allocator) _
          (λ r e. (as_window r.0, refl)))
    | inr off ↦ rw off (Result.err Fault.absent, refl)
  ]

  -- The local APIC is there and enabled.
  pub record IsBooted (s : Irq) : Type 0 where
    pub present : (probed h).present ≡ true
    pub enabled : (probed h).enabled ≡ true
    pub tried : IsTried s

  abbrev Comes : Memory M × List (ℕ × ℕ) × Irq → Type 0
  Comes r = IsBooted r.2

  start_clocks-IsBooted :
      (memory : Memory M) (s : Irq)
      → s.apic.master_mask ≡ 0xFF
      → Ensures Comes (start_clocks h memory s)
  unfolding start_clocks init_timer
  start_clocks-IsBooted memory s shut = bind-Ensures Comes (init_apic h memory s.apic) _ (λ r e1.
      bind-Ensures Comes (expect_ok r.0) _ (λ apic e2.
        let (w, is_init) = ensured _ _ r e1 (init_apic-init memory s.apic) in
        let (present, enabled, same) =
          expect_init (probed h) w h.lvt s.apic apic (ap expect_ok (sym is_init) ∙ e2) in
        let cleared : bit_and apic.master_mask 254 ≡ 254 =
          ap (λ (m : ℕ). bit_and m 254) (same ∙ shut) in
        let apic2 : Apic = record apic { master_mask = bit_and apic.master_mask 254 } in
        bind-Ensures Comes (expect_ok (calibrate h.clock h.ccr apic2)) _ (λ apic3 e3.
          let kept =
            ensured _ _ apic3 e3
              (expect_mask ℕ _ 254 (calibrate-Keeps 254 h.clock h.ccr apic2 cleared).mask) in
          bind-Ensures Comes (try_irqs h (record (publish h apic s) { apic = apic3 })) _ (λ s2 e4.
            record {
              present = present;
              enabled = enabled;
              tried =
                  ensured _ _ s2 e4
                    (try_irqs-IsTried (record (publish h apic s) { apic = apic3 }) kept);
            }))))

  abbrev Ends : Started M G → Type 0
  Ends r = IsBooted r.irq

  start-IsBooted : (m : M) (s : Irq) (r : Started M G) → start h m s ≡ done r → IsBooted r.irq
  unfolding start init_pics
  start-IsBooted m s r e = ensured Ends (start h m s) r e (
      bind-Ensures Ends (Segments.init h.append h.df_stack h.gdt new_tss) _ (λ segments e1.
        bind-Ensures Ends (assert (probed h).present) _ (λ _ e2.
          bind-Ensures Ends (Bringup.init h.paging h.offset h.regions h.heap_size h.self_tests m) _
            (λ memory e3.
              bind-Ensures Ends
                (start_clocks h memory (record s { apic = init_pics h.initialize s.apic })) _
                (λ x e4. ensured Comes _ x e4 (
                  start_clocks-IsBooted memory (record s { apic = init_pics h.initialize s.apic })
                    refl))))))

  -- A boot that comes to the soak has found a local APIC that is there and enabled, has mapped it and measured
  -- its rate, has counted the two system calls of its self-test, and has left IRQ 0 as the one open line of
  -- the master PIC. On any two clocks the rest of the bring-up then comes to an end without a panic, in one of the
  -- four endings.
  pub start-Settled :
      (m : M) (s : Irq) (r : Started M G) (pic apic : ℕ → ℕ)
      → start h m s ≡ done r
      → IsClock pic
      → IsClock apic
      → IsBooted r.irq
        × (e : Ending) × (s' : Apic) × (bring_up pic apic r.irq.apic ≡ done (e, s'))
        × Settled pic apic e r.irq.apic s'
  start-Settled m s r pic apic ran cp ca =
      let booted = start-IsBooted m s r ran in
      let ready : IsReady r.irq.apic = record {
        mapped = booted.tried.mapped;
        rated = booted.tried.rated;
        byte = omega (arith, booted.tried.masks);
      } in
      let (ending, s', ends, settled) = bring_up-Settled pic apic r.irq.apic cp ca ready in
      (booted, ending, s', ends, settled)
