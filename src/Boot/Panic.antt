-- ===== src/Boot/Panic.antt =====
-- The panic handler of kernel/src/main.rs, and the checks that `kernel_main` makes before the demo.
use rusty_core.Prelude.{
  ℕ, ◌≡◌, refl, ◌∙◌, Bool, false, not, ◌==◌, List, [], ◌∷◌, Outcome, ◌>>◌, assert, arith,
}
use rusty_core.Preempt.Table.{Table, set_preemptible}
use rusty_core.Preempt.Stub.{Cpu, stub, tick, yanks, stash, skipped, end_of_interrupt}

-- The proof block: the fence is down, the address of the end of interrupt is published, and the stub has
-- an address.
unfoldable pub proof_block : ℕ → Table → Outcome (Unit {0})
proof_block stub_address t = do
  assert (t.preemptible == 0)
  assert (not (t.eoi_base == 0))
  assert (not (stub_address == 0))

-- Timer interrupts, each with the processor that it finds.
unfoldable pub ticks : ℕ → List Cpu → Table → Table
unfolding stub
ticks frames [] t = t
ticks frames (cpu ∷ cpus) t =
    ticks frames cpus (stub frames (record { cpu = cpu; table = t; eois = [] })).table

-- `panic`, where `printing` are the timer interrupts that arrive while the message is printed and
-- `closing` those between the fence and the `cli`: the statics when the fence has been lowered, then the
-- statics and the interrupt flag at the endless halt.
unfoldable pub panic : ℕ → List Cpu → List Cpu → Table → Table × Table × Bool
unfolding set_preemptible
panic frames printing closing t =
    let lowered = set_preemptible false (ticks frames printing t) in
    (lowered, ticks frames closing lowered, false)

fenced_stub :
    (frames : ℕ) (cpu : Cpu) (t : Table)
    → t.preemptible ≡ 0
    → (stub frames (record { cpu = cpu; table = t; eois = [] })).table ≡ tick t
unfolding stub end_of_interrupt stash skipped tick yanks
fenced_stub frames cpu t down =
    let shut : yanks (tick t) ≡ false = ground arith in rw (shut, stub) refl

pub record IsFrozen (t u : Table) : Type 0 where
  pub frames : u.task_frames ≡ t.task_frames
  pub switches : u.preempt_switches ≡ t.preempt_switches
  pub slots : u.slot_used ≡ t.slot_used

fenced_ticks :
    (frames : ℕ) (cpus : List Cpu) (t : Table)
    → t.preemptible ≡ 0
    → IsFrozen t (ticks frames cpus t) × ((ticks frames cpus t).preemptible ≡ 0)
unfolding ticks tick
fenced_ticks frames [] t down = (record { frames = refl; switches = refl; slots = refl }, down)
fenced_ticks frames (cpu ∷ cpus) t down =
    rw (ticks, fenced_stub frames cpu t down)
      (let (rest, still) = fenced_ticks frames cpus (tick t) down in
        (record { frames = rest.frames; switches = rest.switches; slots = rest.slots }, still))

-- Once the panic handler has lowered the fence, wherever the panic struck and whatever arrived while the
-- message was printed, no timer interrupt stores a frame or counts a yank, before the `cli` or, should one still
-- come through, after it: the frames of the tasks stay what the printing has left. The flag is off.
pub panic-IsFrozen :
    (frames : ℕ) (printing closing late : List Cpu) (t : Table)
    → let printed = ticks frames printing t in
      let (lowered, halted, flag) = panic frames printing closing t in
      IsFrozen printed lowered
      × IsFrozen printed halted
      × IsFrozen printed (ticks frames late halted)
      × (flag ≡ false)
unfolding panic
panic-IsFrozen frames printing closing late t =
    let printed : Table = ticks frames printing t in
    let lowered : Table = set_preemptible false printed in
    let (rest, down) = fenced_ticks frames closing lowered refl in
    let (more, still) = fenced_ticks frames late (ticks frames closing lowered) down in
    (
      record { frames = refl; switches = refl; slots = refl },
      record { frames = rest.frames; switches = rest.switches; slots = rest.slots },
      record {
        frames = more.frames ∙ rest.frames;
        switches = more.switches ∙ rest.switches;
        slots = more.slots ∙ rest.slots;
      },
      refl,
    )
