-- ===== src/Boot/Start/Masked.antt =====
-- What the boot leaves of the mask of the master PIC: the device writes of kernel/src/apic.rs and the
-- interrupt handlers of kernel/src/idt.rs do not touch it.
use rusty_core.Prelude.{
  ℕ, ◌+◌, ◌-◌, ◌%◌, ◌≡◌, ◌∙◌, true, false, Bool, Option, none, some, List, [], ◌∷◌, if◌then◌else◌,
  ◌==◌, Outcome, done, arith, Ensures, bind-Ensures, ensured, add_u64,
}
use rusty_core.Apic.{
  u32_max, u32_mod, Apic, Probe, Fault, Result, lapic_reg, poke, init, pit_window, calib_round,
  settle_rate, measure, calibrate, start_periodic, eoi,
}
use rusty_core.Irq.{Handler, Irq, handle, bump, ack_lapic}
use rusty_core.Irq.Table.{entries, find, deliver, history}

-- The mask is `k` at the end.
pub record Holds {A : Type 0} (k : ℕ) (r : Result A × Apic) : Type 0 where
  pub mask : r.1.master_mask ≡ k

-- The mask stays `k`.
abbrev pub Keeps : {A : Type 0} → ℕ → (Apic → Result A × Apic) → Type 0
Keeps k f = (s : Apic) → s.master_mask ≡ k → Holds k (f s)

module _ {A : Type 0} (k : ℕ) where
  if-Holds :
      (b : Bool) (x y : Result A × Apic)
      → Holds k x
      → Holds k y
      → Holds {A = A} k (if b then x else y)
  if-Holds true x y hx hy = hx
  if-Holds false x y hx hy = hy

  option-Holds :
      {B : Type 0} (o : Option B) (x : Result A × Apic) (f : B → Result A × Apic)
      → Holds k x
      → ((v : B) → Holds k (f v))
      → Holds {A = A} k (elim o [ none ↦ x | some v ↦ f v ])
  option-Holds none x f hx hf = hx
  option-Holds (some v) x f hx hf = hf v

  poke-Keeps :
      (off v : ℕ) (rest : Apic → Result A × Apic) → Keeps k rest → Keeps k (λ s. poke off v s rest)
  unfolding poke
  poke-Keeps off v rest keeps s is_k =
      option-Holds (lapic_reg s.lapic_virt off) _ _ (record { mask = is_k })
        (λ at. keeps (record s { writes = (at, v) ∷ s.writes }) is_k)

  calib_round-Keeps :
      (clock : ℕ → ℕ) (ccr n : ℕ) (rest : ℕ → ℕ → Apic → Result A × Apic)
      → ((d n' : ℕ) → Keeps k (rest d n'))
      → Keeps k (λ s. calib_round clock ccr n s rest)
  unfolding calib_round
  calib_round-Keeps clock ccr n rest keeps = poke-Keeps 0x380 0xFFFF_FFFF past (λ s is_k.
      option-Holds (pit_window clock n) _ (counted s) (record { mask = is_k })
        (λ n'.
          option-Holds (lapic_reg s.lapic_virt 0x390) _ (λ _. last n' s) (record { mask = is_k })
            (λ _.
              if-Holds (delta == 0) _ (rest delta n' s) (record { mask = is_k })
                (keeps delta n' s is_k))))
    where
      delta : ℕ
      delta = (u32_max + u32_mod - ccr) % u32_mod

      last : ℕ → Apic → Result A × Apic
      last n' s = if delta == 0 then (Result.err Fault.zero_delta, s) else rest delta n' s

      counted : Apic → ℕ → Result A × Apic
      counted s n' = elim (lapic_reg s.lapic_virt 0x390) [
        | none ↦ (Result.err Fault.overflows, s)
        | some _ ↦ last n' s
      ]

      past : Apic → Result A × Apic
      past s = elim (pit_window clock n) [
        | none ↦ (Result.err Fault.dead_pit, s)
        | some n' ↦ counted s n'
      ]

settle_rate-Keeps : (k a b c : ℕ) → Keeps k (settle_rate a b c)
unfolding settle_rate
settle_rate-Keeps k a b c s is_k = record { mask = ground (arith, is_k) }

pub init-Keeps : (k : ℕ) (p : Probe) (window : Result ℕ) (lvt : ℕ) → Keeps k (init p window lvt)
unfolding init poke
init-Keeps k p window lvt s is_k = record { mask = ground (arith, is_k) }

pub calibrate-Keeps : (k : ℕ) (clock ccr : ℕ → ℕ) → Keeps k (calibrate clock ccr)
unfolding calibrate measure
calibrate-Keeps k clock ccr s is_k =
    if-Holds k (s.lapic_virt == 0) (Result.err Fault.unmapped, s) (measure clock ccr s)
      (record { mask = is_k })
      (poke-Keeps k 0x3E0 0x3 _
        (calib_round-Keeps k clock (ccr 0) 0 _ (λ a n1.
          calib_round-Keeps k clock (ccr 1) n1 _
            (λ b n2. calib_round-Keeps k clock (ccr 2) n2 _ (λ c n3. settle_rate-Keeps k a b c))))
        s is_k)

pub start_periodic-Keeps : (k : ℕ) → Keeps k start_periodic
unfolding start_periodic poke
start_periodic-Keeps k s is_k = record { mask = ground (arith, is_k) }

-- The same of interrupts, which may end in a panic.
abbrev pub Leaves : ℕ → Outcome Irq → Type 0
Leaves k = Ensures (λ s. s.apic.master_mask ≡ k)

eoi-keeps :
    (s : Apic) (r : Result (Unit {0}) × Apic) → eoi s ≡ done r → r.1.master_mask ≡ s.master_mask
unfolding eoi
eoi-keeps s r e = ground arith

ack_lapic-Leaves : (k : ℕ) (s : Irq) → s.apic.master_mask ≡ k → Leaves k (ack_lapic s)
ack_lapic-Leaves k s is_k = bind-Ensures _ (eoi s.apic) _ (λ r e. eoi-keeps s.apic r e ∙ is_k)

handle-Leaves :
    (k frames : ℕ) (t : Handler) (s : Irq) → s.apic.master_mask ≡ k → Leaves k (handle frames t s)
unfolding handle
handle-Leaves k frames Handler.breakpoint s is_k = is_k
handle-Leaves k frames Handler.double_fault s is_k = tt
handle-Leaves k frames Handler.page_fault s is_k = tt
handle-Leaves k frames Handler.gp s is_k = tt
handle-Leaves k frames Handler.stack_segment s is_k = tt
handle-Leaves k frames Handler.invalid_opcode s is_k = tt
handle-Leaves k frames Handler.divide_error s is_k = tt
handle-Leaves k frames Handler.timer s is_k = is_k
handle-Leaves k frames Handler.keyboard s is_k = is_k
handle-Leaves k frames Handler.syscall_stub s is_k =
    bind-Ensures _ (add_u64 s.syscall_hits 1) _ (λ n e. is_k)
handle-Leaves k frames Handler.preempt_stub s is_k = is_k
handle-Leaves k frames Handler.apic_error s is_k = ack_lapic-Leaves k s is_k
handle-Leaves k frames Handler.spurious s is_k =
    ack_lapic-Leaves k (record s { spurious_hits = bump s.spurious_hits }) is_k
handle-Leaves k frames Handler.spurious_pic_master s is_k = is_k
handle-Leaves k frames Handler.spurious_pic_slave s is_k = is_k

found-Leaves :
    (k frames : ℕ) (fault : Handler) (t : Option Handler) (s : Irq)
    → s.apic.master_mask ≡ k
    → Leaves k (elim t [ some h ↦ handle frames h s | none ↦ handle frames fault s ])
found-Leaves k frames fault none s is_k = handle-Leaves k frames fault s is_k
found-Leaves k frames fault (some h) s is_k = handle-Leaves k frames h s is_k

pub deliver-Leaves :
    (k frames : ℕ) (fault : Handler) (v : ℕ) (s : Irq)
    → s.apic.master_mask ≡ k
    → Leaves k (deliver frames fault v s)
unfolding deliver
deliver-Leaves k frames fault v s is_k = found-Leaves k frames fault (find v entries) s is_k

pub history-Leaves :
    (k frames : ℕ) (fault : Handler) (vs : List ℕ) (s : Irq)
    → s.apic.master_mask ≡ k
    → Leaves k (history frames fault vs s)
unfolding history
history-Leaves k frames fault [] s is_k = is_k
history-Leaves k frames fault (v ∷ vs) s is_k = bind-Ensures _ (deliver frames fault v s) _ (λ s2 e.
    history-Leaves k frames fault vs s2
      (ensured _ (deliver frames fault v s) s2 e (deliver-Leaves k frames fault v s is_k)))
