-- ===== src/Preempt/Stub/Spill.antt =====
-- The spill and the pops of the stub undo one another.
use rusty_core.Prelude.{
  ℕ, ◌+◌, ◌*◌, ◌%◌, ◌<◌, ◌≤◌, ◌≡◌, ap, ◌∙◌, List, [], ◌∷◌, arith, u64_mod, length,
}
use rusty_core.Preempt.Stub.{
  Reg, Gprs, Cpu, write, push, pop, push_all, pop_all, spill_order, fill_order,
}

-- Room for the spill: the stack pointer does not wrap.
pub push_all-rsp :
    (rs : List Reg) (c : Cpu)
    → 8 * length rs ≤ c.rsp
    → c.rsp < u64_mod
    → (push_all rs c).rsp + 8 * length rs ≡ c.rsp
unfolding push_all push
push_all-rsp [] c room small = omega arith
push_all-rsp (r ∷ rs) c room small =
    omega (arith, push_all-rsp rs (push r c) (omega arith) (omega arith))

pub pop_all-rsp :
    (rs : List Reg) (g : Gprs) (sp : ℕ) (words : List ℕ)
    → length rs ≤ length words
    → sp + 8 * length rs < u64_mod
    → (pop_all rs (record { gprs = g; rsp = sp; stack = words })).rsp ≡ sp + 8 * length rs
unfolding pop_all pop
pop_all-rsp [] g sp words room small = omega arith
pop_all-rsp (r ∷ rs) g sp [] room small = absurd (omega arith)
pop_all-rsp (r ∷ rs) g sp (v ∷ words) room small =
    omega
      (arith, pop_all-rsp rs (write g r v) ((sp + 8) % u64_mod) words (omega arith) (omega arith))

-- After the spill, whatever scratch values stand in the registers, the pops bring back the registers,
-- the stack pointer and the stack of the entry.
pub fill-spill :
    (c : Cpu) (scratch : Gprs)
    → 120 ≤ c.rsp
    → c.rsp < u64_mod
    → pop_all fill_order (record (push_all spill_order c) { gprs = scratch }) ≡ c
unfolding push_all pop_all push pop
fill-spill c scratch room small =
    ap (λ (sp : ℕ). record c { rsp = sp })
      (pop_all-rsp fill_order scratch (push_all spill_order c).rsp (push_all spill_order c).stack
          (omega arith) (omega (arith, push_all-rsp spill_order c room small))
        ∙ push_all-rsp spill_order c room small)
