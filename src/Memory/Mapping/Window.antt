-- ===== src/Memory/Mapping/Window.antt =====
-- The window of the local APIC.
use rusty_core.Prelude.{ℕ, ◌%◌, ◌≡◌, done}
use rusty_core.Memory.Mapping.{Paging, Fault, Result, map_mmio_window}

module _ {M A : Type 0} (paging : Paging M A) (spare : A → ℕ) (taken : A → ℕ → Type 0) where
  -- A second call is refused, whatever it asks for, and changes nothing.
  abbrev pub IsClosed : M → Type 0
  IsClosed m =
      (phys : ℕ) (a : A)
      → (f : Fault) × (map_mmio_window paging phys m a ≡ done (Result.err f, m, a))
        × (phys % 4096 ≡ 0 → f ≡ Fault.mmio_occupied)
