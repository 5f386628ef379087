-- ===== src/Xtask.antt =====
-- The commands of xtask/src/main.rs. `status` is what a command that is run ends with, nothing if it cannot be
-- started; `create_bios_image` says whether the bootloader crate could make the image of a kernel;
-- `config` is the text of the configuration.

pub mod Profile
pub mod Order
mod Tests
use rusty_core.Prelude.{
  ℕ, ◌+◌, Bool, true, false, Option, none, some, List, [], ◌∷◌, ◌++◌, if◌then◌else◌, ◌==◌,
}
use rusty_core.Prelude.Vecs.{push}
use rusty_core.Config.{is_space}
use rusty_core.Config.Text.{codes, same_text}
use rusty_core.Config.Qemu.{qemu_cfg}

abbrev pub target : List ℕ
target = codes "x86_64-unknown-none"

pub record Command : Type 0 where
  pub program : List ℕ
  pub args : List (List ℕ)

-- What xtask does to the world.
pub data Action : Type 0 where
  runs : Command → Action
  makes_image : List ℕ → List ℕ → Action

-- A call returns a value or an error, or ends the process: by a panic, or by `exit(1)`.
pub data Ended (A : Type 0) : Type 0 where
  value : A → Ended A
  error panicked exited : Ended A

-- What has been done so far is passed on, whatever the end.
abbrev pub Run : Type 0 → Type 0
Run A = List Action → Ended A × List Action

-- Only a value goes on.
abbrev pub proceed : {A B : Type 0} → (A → Run B) → Ended A × List Action → Ended B × List Action
proceed f (Ended.value a, log) = f a log
proceed f (Ended.error, log) = (Ended.error, log)
proceed f (Ended.panicked, log) = (Ended.panicked, log)
proceed f (Ended.exited, log) = (Ended.exited, log)

infixl 5 ◌>>=◌ ◌>>◌
abbrev pub ◌>>=◌ : {A B : Type 0} → Run A → (A → Run B) → Run B
◌>>=◌ m f log = proceed f (m log)

abbrev pub ◌>>◌ : {B : Type 0} → Run (Unit {0}) → Run B → Run B
m >> k = m >>= λ _. k

abbrev pub done : {A : Type 0} → A → Run A
done a log = (Ended.value a, log)

abbrev pub usage : {A : Type 0} → Run A
usage log = (Ended.exited, log)

abbrev pub profile : Bool → List ℕ
profile release = if release then codes "release" else codes "debug"

-- `join`, of a relative part.
abbrev pub join : List ℕ → List ℕ → List ℕ
join path part = path ++ (47 ∷ part)

unfoldable pub kernel_elf_path : Bool → List ℕ
kernel_elf_path release =
    join (join (join (codes "target") target) (profile release)) (codes "rustycore-kernel")

unfoldable pub image_path : Bool → List ℕ
image_path release =
    join (join (join (codes "target") target) (profile release)) (codes "rustycore-bios.img")

unfoldable pub build_command : Bool → Command
build_command release = record {
  program = codes "cargo";
  args =
      (codes "build" ∷ codes "-p" ∷ codes "rustycore-kernel" ∷ codes "--target" ∷ target ∷ [])
      ++ (if release then codes "--release" ∷ [] else []);
}

-- `split_whitespace`: a character in front of the words of the rest.
abbrev pub in_front : ℕ → List ℕ → List (List ℕ) → List (List ℕ)
in_front c [] ws = (c ∷ []) ∷ ws
in_front c (d ∷ cs) [] = (c ∷ []) ∷ []
in_front c (d ∷ cs) (w ∷ ws) = if is_space d then (c ∷ []) ∷ w ∷ ws else (c ∷ w) ∷ ws

unfoldable pub split_whitespace : List ℕ → List (List ℕ)
split_whitespace [] = []
split_whitespace (c ∷ cs) =
    let ws = split_whitespace cs in if is_space c then ws else in_front c cs ws

module _ (config : List ℕ) where
  abbrev pub setting : List ℕ → List ℕ → List ℕ
  setting key fallback = qemu_cfg config key fallback

  unfoldable pub qemu_command : List ℕ → Command
  unfolding split_whitespace
  qemu_command image = record {
    program = codes "qemu-system-x86_64";
    args =
        (codes "-machine"
          ∷ setting (codes "machine") (codes "q35")
          ∷ codes "-cpu"
          ∷ codes "max"
          ∷ codes "-m"
          ∷ setting (codes "memory") (codes "512M")
          ∷ codes "-smp"
          ∷ setting (codes "smp") (codes "2")
          ∷ codes "-nographic"
          ∷ codes "-display"
          ∷ setting (codes "display") (codes "none")
          ∷ codes "-drive"
          ∷ (codes "format=raw,file=" ++ image)
          ∷ [])
        ++ split_whitespace (setting (codes "extra_args") (codes "-no-reboot -no-shutdown"));
  }

  module _ (status : Command → Option Bool) (create_bios_image : List ℕ → List ℕ → Bool) where
    -- `expect` on a command that cannot be started.
    unfoldable pub run : Command → Run Bool
    run cmd log = elim (status cmd) [
      | none ↦ (Ended.panicked, log)
      | some ok ↦ (Ended.value ok, push log (Action.runs cmd))
    ]

    abbrev pub ensure : Bool → Run (Unit {0})
    ensure ok log = (if ok then Ended.value tt else Ended.panicked, log)

    unfoldable pub build_kernel : Bool → Run (Unit {0})
    unfolding run build_command
    build_kernel release = do ok ← run (build_command release); ensure ok

    unfoldable pub make_image : List ℕ → List ℕ → Run (Unit {0})
    make_image kernel image log =
        if create_bios_image kernel image
        then (Ended.value tt, push log (Action.makes_image kernel image))
        else (Ended.error, log)

    unfoldable pub build_image : Bool → Run (List ℕ)
    unfolding build_kernel kernel_elf_path image_path make_image
    build_image release = do
      build_kernel release
      make_image (kernel_elf_path release) (image_path release)
      done (image_path release)

    unfoldable pub run_qemu : Bool → Run (Unit {0})
    unfolding build_image qemu_command run
    run_qemu release = do image ← build_image release; ok ← run (qemu_command image); done tt

    abbrev pub asks_release : List (List ℕ) → Bool
    asks_release [] = false
    asks_release (a ∷ args) = if same_text a (codes "--release") then true else asks_release args

    -- `args` are the arguments behind the name of the program.
    unfoldable pub main : List (List ℕ) → Run (Unit {0})
    unfolding build_kernel build_image run_qemu
    main [] = usage
    main (sub ∷ args) =
        let release = asks_release args in
        if same_text sub (codes "build")
        then build_kernel release
        else if same_text sub (codes "image")
        then (build_image release >>= λ image. done tt)
        else if same_text sub (codes "run-qemu")
        then run_qemu release
        else usage
