-- ===== src/Irq/History.antt =====
-- What a history of interrupts leaves in the counters, and which controllers were told.
use rusty_core.Prelude.{
  ℕ, suc, ◌+◌, ◌%◌, ◌<◌, ◌≤◌, ◌≡◌, ◌≢◌, ◌⊎◌, inl, inr, refl, sym, ap, ◌∙◌, Bool-cases,
  if◌then◌else◌, ◌==◌, done, ◌>>=◌, List, [], ◌∷◌, ◌++◌, length, arith, u64_mod,
}
use rusty_core.Prelude.Vecs.{All}
use rusty_core.Apic.{eoi, lapic_reg}
use rusty_core.Preempt.Stub.{Machine, Cpu, stub, tick, yanks, stash, skipped, end_of_interrupt}
use rusty_core.Preempt.Stub.Resume.{stub-transparent}
use rusty_core.Irq.{Handler, Irq, handle, bump, ack_lapic}
use rusty_core.Irq.Table.{deliver, find, history}

abbrev pub count : ℕ → List ℕ → ℕ
count v [] = 0
count v (w ∷ ws) = (if w == v then 1 else 0) + count v ws

-- The breakpoint, the four vectors of the PICs, and the four that the kernel has chosen.
abbrev pub IsServed : ℕ → Type 0
IsServed v =
    (v ≡ 3)
    ⊎ (v ≡ 32)
    ⊎ (v ≡ 33)
    ⊎ (v ≡ 39)
    ⊎ (v ≡ 47)
    ⊎ (v ≡ 0x80)
    ⊎ (v ≡ 0xEF)
    ⊎ (v ≡ 0xFE)
    ⊎ (v ≡ 0xFF)

-- The LAPIC is mapped and its address published, the interrupted stack has room for the stub, and no
-- counter wraps within `n` interrupts.
pub record IsRoomy (n : ℕ) (s : Irq) : Type 0 where
  pub mapped : 0 < s.apic.lapic_virt
  pub window : s.apic.lapic_virt + 0xB0 < u64_mod
  pub published : s.machine.table.eoi_base ≢ 0
  pub stack : 120 ≤ s.machine.cpu.rsp
  pub pointer : s.machine.cpu.rsp < u64_mod
  pub timer : s.timer_ticks + n < u64_mod
  pub apic_timer : s.machine.table.apic_ticks + n < u64_mod
  pub syscalls : s.syscall_hits + n < u64_mod
  pub noise : s.spurious_hits + n < u64_mod

-- The numbers of the state after the interrupts `vs`, against those of the state before.
pub record IsCounted (vs : List ℕ) (s s' : Irq) : Type 0 where
  pub timer : s'.timer_ticks ≡ s.timer_ticks + count 32 vs
  pub apic_timer : s'.machine.table.apic_ticks ≡ s.machine.table.apic_ticks + count 0xEF vs
  pub syscalls : s'.syscall_hits ≡ s.syscall_hits + count 0x80 vs
  pub noise : s'.spurious_hits ≡ s.spurious_hits + (count 0xFF vs + count 39 vs + count 47 vs)
  pub pic_acks : length s'.acks ≡ length s.acks + (count 32 vs + count 33 vs + count 47 vs)
  pub lapic_acks :
      length s'.apic.writes + length s'.machine.eois
      ≡ length s.apic.writes
        + length s.machine.eois
        + (count 0xEF vs + count 0xFE vs + count 0xFF vs)
  pub window : s'.apic.lapic_virt ≡ s.apic.lapic_virt
  pub published : s'.machine.table.eoi_base ≡ s.machine.table.eoi_base

-- The interrupted code finds its processor as it was.
pub record IsServedBy (vs : List ℕ) (s s' : Irq) : Type 0 where
  pub counted : IsCounted vs s s'
  pub resumed : s'.machine.cpu ≡ s.machine.cpu

-- The stub counts one tick, whatever it stashes, and leaves the published address alone.
stub-ticks :
    (frames : ℕ) (m : Machine)
    → ((stub frames m).table.apic_ticks ≡ (m.table.apic_ticks + 1) % u64_mod)
      × ((stub frames m).table.eoi_base ≡ m.table.eoi_base)
unfolding stub end_of_interrupt stash skipped tick
stub-ticks frames m = elim (Bool-cases (yanks (tick m.table))) [
  | inl e ↦ rw (e, stub) (refl, refl)
  | inr e ↦ rw (e, stub) (refl, refl)
]

one_le : (v w : ℕ) → count w (v ∷ []) ≤ 1
one_le v w = ground arith

noise_le : (v : ℕ) → count 0xFF (v ∷ []) + count 39 (v ∷ []) + count 47 (v ∷ []) ≤ 1
noise_le v = ground arith

module _ (frames : ℕ) (fault : Handler) where
  abbrev Counts : ℕ → Irq → Type 0
  Counts v s = (s' : Irq) × (deliver frames fault v s ≡ done s') × IsServedBy (v ∷ []) s s'

  breakpoint-Counts : (s : Irq) {n : ℕ} → IsRoomy (suc n) s → Counts 3 s
  unfolding deliver find handle
  breakpoint-Counts s roomy = (_, refl, record { counted = omega arith; resumed = refl })

  timer-Counts : (s : Irq) {n : ℕ} → IsRoomy (suc n) s → Counts 32 s
  unfolding deliver find handle
  timer-Counts s roomy = (_, refl, record { counted = omega arith; resumed = refl })

  keyboard-Counts : (s : Irq) {n : ℕ} → IsRoomy (suc n) s → Counts 33 s
  unfolding deliver find handle
  keyboard-Counts s roomy = (_, refl, record { counted = omega arith; resumed = refl })

  master-Counts : (s : Irq) {n : ℕ} → IsRoomy (suc n) s → Counts 39 s
  unfolding deliver find handle
  master-Counts s roomy = (_, refl, record { counted = omega arith; resumed = refl })

  slave-Counts : (s : Irq) {n : ℕ} → IsRoomy (suc n) s → Counts 47 s
  unfolding deliver find handle
  slave-Counts s roomy = (_, refl, record { counted = omega arith; resumed = refl })

  syscall-Counts : (s : Irq) {n : ℕ} → IsRoomy (suc n) s → Counts 0x80 s
  unfolding deliver find handle
  syscall-Counts s roomy = (
    record s { syscall_hits = s.syscall_hits + 1 },
    ground arith,
    record { counted = omega arith; resumed = refl },
  )

  preempt-Counts : (s : Irq) {n : ℕ} → IsRoomy (suc n) s → Counts 0xEF s
  unfolding deliver find handle
  preempt-Counts s roomy =
      let seen = stub-transparent frames s.machine roomy.stack roomy.pointer in
      let ticks = stub-ticks frames s.machine in
      (
        record s { machine = stub frames s.machine },
        refl,
        record {
          counted = omega (arith, ticks, ap (λ (l : List ℕ). length l) (seen.2 roomy.published));
          resumed = seen.0;
        },
      )

  -- The write that `eoi` makes.
  told : Irq → Irq
  told s = record s {
    apic = record s.apic { writes = (s.apic.lapic_virt + 0xB0, 0) ∷ s.apic.writes };
  }

  ack_lapic-told :
      (s : Irq)
      → 0 < s.apic.lapic_virt
      → s.apic.lapic_virt + 0xB0 < u64_mod
      → ack_lapic s ≡ done (told s)
  unfolding eoi lapic_reg told
  ack_lapic-told s mapped window = ground arith

  error-Counts : (s : Irq) {n : ℕ} → IsRoomy (suc n) s → Counts 0xFE s
  unfolding deliver find handle told
  error-Counts s roomy = (
    told s,
    ack_lapic-told s roomy.mapped roomy.window,
    record { counted = omega arith; resumed = refl },
  )

  spurious-Counts : (s : Irq) {n : ℕ} → IsRoomy (suc n) s → Counts 0xFF s
  unfolding deliver find handle told
  spurious-Counts s roomy =
      let heard : Irq = record s { spurious_hits = bump s.spurious_hits } in
      (
        told heard,
        ack_lapic-told heard roomy.mapped roomy.window,
        record { counted = omega arith; resumed = refl },
      )

  deliver-Counts : (v : ℕ) (s : Irq) {n : ℕ} → IsServed v → IsRoomy (suc n) s → Counts v s
  deliver-Counts v s served roomy = elim served [
    | inl e ↦ rw e (breakpoint-Counts s roomy)
    | inr (inl e) ↦ rw e (timer-Counts s roomy)
    | inr (inr (inl e)) ↦ rw e (keyboard-Counts s roomy)
    | inr (inr (inr (inl e))) ↦ rw e (master-Counts s roomy)
    | inr (inr (inr (inr (inl e)))) ↦ rw e (slave-Counts s roomy)
    | inr (inr (inr (inr (inr (inl e))))) ↦ rw e (syscall-Counts s roomy)
    | inr (inr (inr (inr (inr (inr (inl e)))))) ↦ rw e (preempt-Counts s roomy)
    | inr (inr (inr (inr (inr (inr (inr (inl e))))))) ↦ rw e (error-Counts s roomy)
    | inr (inr (inr (inr (inr (inr (inr (inr e))))))) ↦ rw e (spurious-Counts s roomy)
  ]

  IsRoomy-served :
      (v : ℕ) (s t : Irq) (n : ℕ) → IsRoomy (suc n) s → IsServedBy (v ∷ []) s t → IsRoomy n t
  IsRoomy-served v s t n roomy one =
      let same_rsp = ap (λ (c : Cpu). c.rsp) one.resumed in
      record {
        mapped = omega (arith, one.counted.window);
        window = omega (arith, one.counted.window);
        published = λ z. roomy.published (sym one.counted.published ∙ z);
        stack = omega (arith, same_rsp);
        pointer = omega (arith, same_rsp);
        timer = omega (arith, one.counted.timer, one_le v 32);
        apic_timer = omega (arith, one.counted.apic_timer, one_le v 0xEF);
        syscalls = omega (arith, one.counted.syscalls, one_le v 0x80);
        noise = omega (arith, one.counted.noise, noise_le v);
      }

  IsServedBy-cons :
      (v : ℕ) (vs : List ℕ) (s t u : Irq)
      → IsServedBy (v ∷ []) s t
      → IsServedBy vs t u
      → IsServedBy (v ∷ vs) s u
  IsServedBy-cons v vs s t u one rest = record {
    counted = omega (arith, one.counted, rest.counted);
    resumed = rest.resumed ∙ one.resumed;
  }

  pub history-IsServedBy :
      (vs : List ℕ) (s : Irq)
      → All IsServed vs
      → IsRoomy (length vs) s
      → (s' : Irq) × (history frames fault vs s ≡ done s') × IsServedBy vs s s'
  unfolding history
  history-IsServedBy [] s served roomy = (s, refl, record { counted = omega arith; resumed = refl })
  history-IsServedBy (v ∷ vs) s served roomy =
      let (t, first, one) = deliver-Counts v s served.0 roomy in
      let (u, later, rest) =
        history-IsServedBy vs t served.1 (IsRoomy-served v s t (length vs) roomy one) in
      (u, rw (first, ◌>>=◌) later, IsServedBy-cons v vs s t u one rest)

pub count-append : (w : ℕ) (xs ys : List ℕ) → count w (xs ++ ys) ≡ count w xs + count w ys
count-append w [] ys = omega arith
count-append w (x ∷ xs) ys = omega (arith, count-append w xs ys)

pub All-append : (xs ys : List ℕ) → All IsServed xs → All IsServed ys → All IsServed (xs ++ ys)
All-append [] ys hx hy = hy
All-append (x ∷ xs) ys hx hy = (hx.0, All-append xs ys hx.1 hy)
