-- ===== src/Xtask/Profile.antt =====
-- For which profile xtask does what it does.
use Prim.Native.String.{String}
use rusty_core.Prelude.{
  ℕ, zero, suc, ◌++◌, ◌↔◌, get_elem?, some_inj, if◌then◌else◌, sym, ◌≡◌, inl, inr, refl, ap, ◌∙◌,
  Bool, true, false, Option, some, Bool-cases, List, [], ◌∷◌,
}
use rusty_core.Config.Text.{codes, same_text}
use rusty_core.Config.Reader.Onward.{same_text_sound}
use rusty_core.Xtask.{Command, kernel_elf_path, image_path, build_command, asks_release}

-- The call of cargo for a profile, and where cargo then leaves the files of that profile.
abbrev pub cargo : Bool → Command
cargo true = record {
  program = codes "cargo";
  args =
      codes "build"
      ∷ codes "-p"
      ∷ codes "rustycore-kernel"
      ∷ codes "--target"
      ∷ codes "x86_64-unknown-none"
      ∷ codes "--release"
      ∷ [];
}
cargo false = record {
  program = codes "cargo";
  args =
      codes "build"
      ∷ codes "-p"
      ∷ codes "rustycore-kernel"
      ∷ codes "--target"
      ∷ codes "x86_64-unknown-none"
      ∷ [];
}

abbrev pub in_directory : Bool → String → List ℕ
in_directory true file = codes "target/x86_64-unknown-none/release/" ++ codes file
in_directory false file = codes "target/x86_64-unknown-none/debug/" ++ codes file

module _ (config : List ℕ) (status : Command → Option Bool)
    (create_bios_image : List ℕ → List ℕ → Bool) where
  -- Whether the arguments behind the command ask for the release profile.
  abbrev pub released : List (List ℕ) → Bool
  released [] = false
  released (sub ∷ args) = asks_release config status create_bios_image args

  -- The flag stands among the arguments behind the command.
  abbrev pub HasFlag : List (List ℕ) → Type 0
  HasFlag args = (i : ℕ) × (get_elem? args (suc i) ≡ some (codes "--release"))

  asked :
      (sub : List ℕ) (args : List (List ℕ)) → released (sub ∷ args) ≡ true → HasFlag (sub ∷ args)
  asked sub [] e = cc
  asked sub (a ∷ args) e = elim (Bool-cases (same_text a (codes "--release"))) [
    | inl here ↦ (0, ap some (same_text_sound a (codes "--release") here))
    | inr other ↦
        let (i, at) =
          asked a args (sym (ap (λ b. if b then true else released (a ∷ args)) other) ∙ e) in
        (suc i, at)
  ]

  granted :
      (sub : List ℕ) (args : List (List ℕ)) (i : ℕ)
      → get_elem? args i ≡ some (codes "--release")
      → released (sub ∷ args) ≡ true
  granted sub [] i e = cc
  granted sub (a ∷ args) zero e = rw (some_inj e) refl
  granted sub (a ∷ args) (suc i) e = elim (Bool-cases (same_text a (codes "--release"))) [
    | inl here ↦ rw here refl
    | inr other ↦ rw other (granted a args i e)
  ]

  -- The one profile of all that is done: the flag decides it, cargo is given it, and the kernel that the image is made of
  -- is the one that cargo then leaves in its directory.
  pub record IsProfile (args : List (List ℕ)) (release : Bool) : Type 0 where
    pub asked_for : (release ≡ true) ↔ HasFlag args
    pub command : build_command release ≡ cargo release
    pub kernel : kernel_elf_path release ≡ in_directory release "rustycore-kernel"
    pub image : image_path release ≡ in_directory release "rustycore-bios.img"

  pub profiled : (args : List (List ℕ)) → IsProfile args (released args)
  unfolding build_command kernel_elf_path image_path
  profiled args = record {
    asked_for = flagged args;
    command = commanded (released args);
    kernel = kernel_there (released args);
    image = image_there (released args);
  }
    where
      flagged : (args : List (List ℕ)) → (released args ≡ true) ↔ HasFlag args
      flagged [] = (λ e. cc, λ (i, e). cc)
      flagged (sub ∷ args) = (asked sub args, λ (i, e). granted sub args i e)

      commanded : (release : Bool) → build_command release ≡ cargo release
      commanded true = refl
      commanded false = refl

      kernel_there :
          (release : Bool) → kernel_elf_path release ≡ in_directory release "rustycore-kernel"
      kernel_there true = refl
      kernel_there false = refl

      image_there :
          (release : Bool) → image_path release ≡ in_directory release "rustycore-bios.img"
      image_there true = refl
      image_there false = refl
