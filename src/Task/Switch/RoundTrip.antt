-- ===== src/Task/Switch/RoundTrip.antt =====
-- What a switch saves, the switch back restores, and what a fresh task finds at its first switch.
use rusty_core.Prelude.{
  ℕ, zero, suc, ◌+◌, ◌-◌, ◌*◌, ◌%◌, ◌<◌, ◌≤◌, ◌≡◌, refl, ap, ◌∙◌, List, [], ◌∷◌, arith, u64_mod,
  update, done, eq-false, get_or, ◌⊎◌, inl, ==_iff,
}
use rusty_core.Task.Switch.{
  Context, Callee, Core, push, pop, ret, save, restore, context_switch, write_zeros,
  init_task_context, words_at,
}

-- The frame that a switched-out side keeps on its stack: the six registers and the return address.
abbrev pub frame : Callee → ℕ → List ℕ
frame k pc = k.r15 ∷ k.r14 ∷ k.r13 ∷ k.r12 ∷ k.rbx ∷ k.rbp ∷ pc ∷ []

-- The registers of a fresh task.
abbrev pub no_registers : Callee
no_registers = record { rbp = 0; rbx = 0; r12 = 0; r13 = 0; r14 = 0; r15 = 0 }

-- The word at `f` is not among the `n` words from `a`.
abbrev IsApart : ℕ → ℕ → ℕ → Type 0
IsApart f a n = (f < a) ⊎ (a + 8 * n ≤ f)

words_at-apart :
    (mem : ℕ → ℕ) (f v a n : ℕ) → IsApart f a n → words_at (update mem f v) a n ≡ words_at mem a n
words_at-apart mem f v a zero apart = refl
words_at-apart mem f v a (suc n) apart =
    rw (eq-false f a (λ e. omega arith), words_at-apart mem f v (a + 8) n (ground arith))

words_at-written :
    (mem : ℕ → ℕ) (v a b n : ℕ)
    → a + 8 ≡ b
    → words_at (update mem a v) a (suc n) ≡ v ∷ words_at mem b n
words_at-written mem v a b n e =
    rw ((==_iff a a).1 refl, e, words_at-apart mem a v b n (inl (omega arith)))

higher : (a : ℕ) → a + 8 < u64_mod → (a + 8) % u64_mod ≡ a + 8
higher a small = omega arith

-- Room for `k` pushes.
abbrev HasRoom : ℕ → Core → Type 0
HasRoom k c = (8 * k ≤ c.rsp) × (c.rsp < u64_mod)

push-HasRoom : (k : ℕ) (v : ℕ) (c : Core) → HasRoom (suc k) c → HasRoom k (push v c)
unfolding push
push-HasRoom k v c h = (omega arith, omega arith)

-- A push puts one word in front of those that lie on the stack.
words_at-push :
    (k : ℕ) (v : ℕ) (c : Core) (n : ℕ) {words : List ℕ}
    → HasRoom (suc k) c
    → words_at c.mem c.rsp n ≡ words
    → words_at (push v c).mem (push v c).rsp (suc n) ≡ v ∷ words
unfolding push
words_at-push k v c n h e =
    words_at-written c.mem v ((c.rsp + u64_mod - 8) % u64_mod) c.rsp n (omega arith)
    ∙ ap (λ (l : List ℕ). v ∷ l) e

module _ (c : Core) (room : 48 ≤ c.rsp) (small : c.rsp < u64_mod) where
  pub save-rsp : (save c).rsp + 48 ≡ c.rsp
  unfolding save push
  save-rsp = omega arith

  save-frame : words_at (save c).mem (save c).rsp 7 ≡ frame c.callee (c.mem c.rsp)
  unfolding save
  save-frame =
      let c1 : Core = push c.callee.rbp c in
      let c2 : Core = push c.callee.rbx c1 in
      let c3 : Core = push c.callee.r12 c2 in
      let c4 : Core = push c.callee.r13 c3 in
      let c5 : Core = push c.callee.r14 c4 in
      let h : HasRoom 6 c = (omega arith, small) in
      let h1 : HasRoom 5 c1 = push-HasRoom 5 c.callee.rbp c h in
      let h2 : HasRoom 4 c2 = push-HasRoom 4 c.callee.rbx c1 h1 in
      let h3 : HasRoom 3 c3 = push-HasRoom 3 c.callee.r12 c2 h2 in
      let h4 : HasRoom 2 c4 = push-HasRoom 2 c.callee.r13 c3 h3 in
      let h5 : HasRoom 1 c5 = push-HasRoom 1 c.callee.r14 c4 h4 in
      words_at-push 0 c.callee.r15 c5 6 h5 (
        words_at-push 1 c.callee.r14 c4 5 h4 (
          words_at-push 2 c.callee.r13 c3 4 h3 (
            words_at-push 3 c.callee.r12 c2 3 h2
              (words_at-push 4 c.callee.rbx c1 2 h1 (words_at-push 5 c.callee.rbp c 1 h refl)))))

restored :
    (c : Core)
    → c.rsp + 56 < u64_mod
    → ret (restore c) ≡ record c {
      callee = record {
        r15 = c.mem c.rsp;
        r14 = c.mem (c.rsp + 8);
        r13 = c.mem (c.rsp + 8 + 8);
        r12 = c.mem (c.rsp + 8 + 8 + 8);
        rbx = c.mem (c.rsp + 8 + 8 + 8 + 8);
        rbp = c.mem (c.rsp + 8 + 8 + 8 + 8 + 8);
      };
      rip = c.mem (c.rsp + 8 + 8 + 8 + 8 + 8 + 8);
      rsp = c.rsp + 8 + 8 + 8 + 8 + 8 + 8 + 8;
    }
unfolding ret restore pop
restored c small = rw (
  higher c.rsp (omega arith),
  higher (c.rsp + 8) (omega arith),
  higher (c.rsp + 8 + 8) (omega arith),
  higher (c.rsp + 8 + 8 + 8) (omega arith),
  higher (c.rsp + 8 + 8 + 8 + 8) (omega arith),
  higher (c.rsp + 8 + 8 + 8 + 8 + 8) (omega arith),
  higher (c.rsp + 8 + 8 + 8 + 8 + 8 + 8) (omega arith),
)

-- The callee and the return address of a frame's words.
abbrev unframe : List ℕ → Callee × ℕ
unframe l = (
  record {
    r15 = get_or l 0 0;
    r14 = get_or l 1 0;
    r13 = get_or l 2 0;
    r12 = get_or l 3 0;
    rbx = get_or l 4 0;
    rbp = get_or l 5 0;
  },
  get_or l 6 0,
)

restore-frame :
    (c : Core) (k : Callee) (pc : ℕ)
    → c.rsp + 56 < u64_mod
    → words_at c.mem c.rsp 7 ≡ frame k pc
    → ret (restore c) ≡ record c { callee = k; rip = pc; rsp = c.rsp + 56 }
restore-frame c k pc small e =
    restored c small
    ∙ ap
        (λ (l : List ℕ). record c {
          callee = (unframe l).0;
          rip = (unframe l).1;
          rsp = c.rsp + 8 + 8 + 8 + 8 + 8 + 8 + 8;
        })
        e
    ∙ ap (λ (sp : ℕ). record c { callee = k; rip = pc; rsp = sp }) (omega arith)

-- The spill of one side leaves the frame of another alone.
module _ (d : Core) (room : 48 ≤ d.rsp) (small : d.rsp < u64_mod) (a n : ℕ) where
  save-apart :
      (d.rsp ≤ a) ⊎ (a + 8 * n + 48 ≤ d.rsp) → words_at (save d).mem a n ≡ words_at d.mem a n
  unfolding save push
  save-apart apart =
      words_at-apart _ _ _ a n (ground arith)
      ∙ words_at-apart _ _ _ a n (ground arith)
      ∙ words_at-apart _ _ _ a n (ground arith)
      ∙ words_at-apart _ _ _ a n (ground arith)
      ∙ words_at-apart _ _ _ a n (ground arith)
      ∙ words_at-apart _ _ _ a n (ground arith)

-- A switch to a context whose frame is on a stack that the caller does not stand on.
pub context_switch-frame :
    (d : Core) (to : Context) (k : Callee) (pc : ℕ)
    → 48 ≤ d.rsp
    → d.rsp < u64_mod
    → to.rsp + 56 < u64_mod
    → (d.rsp ≤ to.rsp) ⊎ (to.rsp + 104 ≤ d.rsp)
    → words_at d.mem to.rsp 7 ≡ frame k pc
    → (context_switch to d).1 ≡ record (save d) { callee = k; rip = pc; rsp = to.rsp + 56 }
unfolding context_switch
context_switch-frame d to k pc room small high apart e =
    restore-frame (record (save d) { rsp = to.rsp }) k pc high
      (save-apart d room small to.rsp 7 (ground arith) ∙ e)

-- A side that was switched out resumes where it left off. Another side, on a stack that does not
-- meet the saved frame and whatever registers it has, switches back to the saved context: if the
-- seven words of the frame are as they were saved, the six registers are restored, control
-- returns to the caller of the first switch, and the stack pointer is one word above the saved return
-- address. Neither stack pointer may wrap.
pub context_switch-resumes :
    (c d : Core) (new : Context)
    → 48 ≤ c.rsp
    → c.rsp + 8 < u64_mod
    → 48 ≤ d.rsp
    → d.rsp < u64_mod
    → (d.rsp + 48 ≤ c.rsp) ⊎ (c.rsp + 56 ≤ d.rsp)
    → words_at d.mem (context_switch new c).0.rsp 7
      ≡ words_at (context_switch new c).1.mem (context_switch new c).0.rsp 7
    → (context_switch (context_switch new c).0 d).1
      ≡ record (save d) { callee = c.callee; rip = c.mem c.rsp; rsp = c.rsp + 8 }
unfolding context_switch ret restore pop
context_switch-resumes c d new room small room' small' apart e =
    let at = save-rsp c room (omega arith) in
    context_switch-frame d (context_switch new c).0 c.callee (c.mem c.rsp) room' small'
      (omega arith) (ground arith) (e ∙ save-frame c room (omega arith))
    ∙ ap (λ (sp : ℕ). record (save d) { callee = c.callee; rip = c.mem c.rsp; rsp = sp })
        (omega arith)

fabricated : ℕ → ℕ → (ℕ → ℕ) → ℕ → ℕ
fabricated trampoline b mem =
    update (update (write_zeros 6 b mem) (b + 8 * 6) trampoline) (b + 8 * 7) 0

fabricated-frame :
    (trampoline b : ℕ) (mem : ℕ → ℕ)
    → words_at (fabricated trampoline b mem) b 7 ≡ frame no_registers trampoline
unfolding fabricated write_zeros
fabricated-frame trampoline b mem = ground arith

-- The first switch to a fresh task: `init_task_context` succeeds on an aligned top with room, and the
-- switch enters the trampoline with zeroed registers, eight bytes below the top, which is the
-- parity that the ABI asks of a function's entry.
pub init_task_context-enters :
    (trampoline top : ℕ) (mem : ℕ → ℕ)
    → top % 16 ≡ 0
    → 64 ≤ top
    → top < u64_mod
    → (ctx : Context) × (mem' : ℕ → ℕ) × (init_task_context trampoline top mem ≡ done (ctx, mem'))
      × ((top - 8) % 16 ≡ 8)
      × ((d : Core)
          → 48 ≤ d.rsp
          → d.rsp < u64_mod
          → (d.rsp + 64 ≤ top) ⊎ (top + 40 ≤ d.rsp)
          → d.mem ≡ mem'
          → (context_switch ctx d).1
            ≡ record (save d) { callee = no_registers; rip = trampoline; rsp = top - 8 })
unfolding init_task_context fabricated
init_task_context-enters trampoline top mem al room small = (
  record { rsp = top - 64 },
  fabricated trampoline (top - 64) mem,
  ground arith,
  omega arith,
  λ d room' small' apart e.
      context_switch-frame d (record { rsp = top - 64 }) no_registers trampoline room' small'
        (omega arith) (ground arith)
        (ap (λ (m : ℕ → ℕ). words_at m (top - 64) 7) e ∙ fabricated-frame trampoline (top - 64) mem)
      ∙ ap (λ (sp : ℕ). record (save d) { callee = no_registers; rip = trampoline; rsp = sp })
          (omega arith),
)
