-- ===== src/Task/Switch.antt =====
-- The cooperative switch of kernel/src/task.rs: `context_switch`, instruction by instruction, and
-- `init_task_context`, which fabricates the first frame. Memory is a function from the address of a
-- word to the word; all accesses are aligned words.
pub mod RoundTrip
pub mod Visit
use rusty_core.Prelude.{
  ℕ, zero, suc, ◌+◌, ◌-◌, ◌*◌, ◌/◌, ◌%◌, ◌^◌, ◌<◌, ◌≤◌, ◌≡◌, refl, ap, sym, ◌∙◌, Bool, true, false,
  List, [], ◌∷◌, arith, u64_mod, if◌then◌else◌, ◌==◌, update, Outcome, done, panics, ◌>>=◌, ◌>>◌,
  assert, sub_u64,
}

pub record Context : Type 0 where
  pub rsp : ℕ

-- The registers that a call preserves.
pub record Callee : Type 0 where
  pub rbp : ℕ
  pub rbx : ℕ
  pub r12 : ℕ
  pub r13 : ℕ
  pub r14 : ℕ
  pub r15 : ℕ

pub record Core : Type 0 where
  pub callee : Callee
  pub rsp : ℕ
  pub rip : ℕ
  pub mem : ℕ → ℕ

unfoldable pub push : ℕ → Core → Core
push v c = record c {
  rsp = (c.rsp + u64_mod - 8) % u64_mod;
  mem = update c.mem ((c.rsp + u64_mod - 8) % u64_mod) v;
}

-- `pop`: the word on top, and the core with the stack pointer past it.
unfoldable pub pop : Core → ℕ × Core
pop c = (c.mem c.rsp, record c { rsp = (c.rsp + 8) % u64_mod })

unfoldable pub ret : Core → Core
ret c = record c { rip = c.mem c.rsp; rsp = (c.rsp + 8) % u64_mod }

unfoldable pub save : Core → Core
unfolding push
save c =
    let c1 = push c.callee.rbp c in
    let c2 = push c.callee.rbx c1 in
    let c3 = push c.callee.r12 c2 in
    let c4 = push c.callee.r13 c3 in let c5 = push c.callee.r14 c4 in push c.callee.r15 c5

unfoldable pub restore : Core → Core
unfolding pop
restore c =
    let (r15, c1) = pop c in
    let (r14, c2) = pop c1 in
    let (r13, c3) = pop c2 in
    let (r12, c4) = pop c3 in
    let (rbx, c5) = pop c4 in
    let (rbp, c6) = pop c5 in
    record c6 {
      callee = record { rbp = rbp; rbx = rbx; r12 = r12; r13 = r13; r14 = r14; r15 = r15 };
    }

-- The context that `old` receives, and the core on the side of `new`.
unfoldable pub context_switch : Context → Core → Context × Core
context_switch new c =
    let saved = save c in
    (record { rsp = saved.rsp }, ret (restore (record saved { rsp = new.rsp })))

-- `for i in 0..6 { slots.add(i).write(0) }`, with `left` rounds to go.
unfoldable pub write_zeros : ℕ → ℕ → (ℕ → ℕ) → ℕ → ℕ
write_zeros zero a mem = mem
write_zeros (suc left) a mem = write_zeros left (a + 8) (update mem a 0)

-- `trampoline` is the address of `task_trampoline`; the result is the context and the memory.
unfoldable pub init_task_context : ℕ → ℕ → (ℕ → ℕ) → Outcome (Context × (ℕ → ℕ))
init_task_context trampoline top mem = do
  assert (top % 16 == 0)
  rsp ← sub_u64 top 64
  assert (rsp % 16 == 0)
  assert ((rsp + 56) % 16 == 8)
  let zeroed = write_zeros 6 rsp mem
  let landed = update zeroed (rsp + 8 * 6) trampoline
  done (record { rsp = rsp }, update landed (rsp + 8 * 7) 0)

-- The `n` words from `a` upwards.
abbrev pub words_at : (ℕ → ℕ) → ℕ → ℕ → List ℕ
words_at mem a zero = []
words_at mem a (suc n) = mem a ∷ words_at mem (a + 8) n
