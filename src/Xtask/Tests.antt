-- ===== src/Xtask/Tests.antt =====
-- A run of QEMU with a small configuration, and the instance of the theorem on the order.
use rusty_core.Prelude.{ℕ, ◌≡◌, refl, Bool, true, Option, some, List, [], ◌∷◌}
use rusty_core.Config.Qemu.{qemu_cfg}
use rusty_core.Config.Text.{split_once, before, trim_matches, codes}
use rusty_core.Xtask.{Command, Ended, qemu_command, main}
use rusty_core.Xtask.Profile.{IsProfile}
use rusty_core.Xtask.Order.{IsInOrder, main-IsInOrder}

abbrev config : List ℕ
config = codes "[qemu]\nsmp = 4\nextra_args = \"-no-reboot  -S\"\n"

-- Everything can be started and ends with success.
abbrev status : Command → Option Bool
status cmd = some true

abbrev image_made : List ℕ → List ℕ → Bool
image_made kernel image = true

abbrev qemu_run : List (List ℕ)
qemu_run = codes "run-qemu" ∷ codes "--release" ∷ []

qemu_started : qemu_command config (codes "a.img") ≡ record {
  program = codes "qemu-system-x86_64";
  args =
      codes "-machine"
      ∷ codes "q35"
      ∷ codes "-cpu"
      ∷ codes "max"
      ∷ codes "-m"
      ∷ codes "512M"
      ∷ codes "-smp"
      ∷ codes "4"
      ∷ codes "-nographic"
      ∷ codes "-display"
      ∷ codes "none"
      ∷ codes "-drive"
      ∷ codes "format=raw,file=a.img"
      ∷ codes "-no-reboot"
      ∷ codes "-S"
      ∷ [];
}
unfolding qemu_command qemu_cfg split_once before trim_matches
qemu_started = refl

nothing_asked : main config status image_made [] [] ≡ (Ended.exited, [])
unfolding main
nothing_asked = refl

main-IsInOrder_example :
    (release : Bool) × IsProfile config status image_made qemu_run release
    × IsInOrder config status image_made release (main config status image_made qemu_run [])
main-IsInOrder_example = main-IsInOrder config status image_made qemu_run
