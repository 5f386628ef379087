-- ===== src/Prelude/Tables.antt =====
-- Checks of every number below a bound, for laws of the bits of a byte.
use Prim.Native.Nat.{ℕ, zero, suc, ◌<◌}
use mathlib.Core.Path.{◌≡◌, refl}
use mathlib.Core.Bool.{Bool, true, false, not, ◌&&◌}
use native.Mathlib.Omega.{arith}

unfoldable pub every : (ℕ → Bool) → ℕ → Bool
every test zero = true
every test (suc bound) = every test bound && test bound

-- The test holds of each number below a bound that passes.
pub every-at :
    (test : ℕ → Bool) (bound : ℕ) {k : ℕ} → k < bound → every test bound ≡ true → test k ≡ true
unfolding every
every-at test (suc bound) {k} lt passed = ground (arith, every-at test bound {k = k})
every-at test zero lt passed = absurd (omega arith)

unfoldable pub same : Bool → Bool → Bool
same true b = b
same false b = not b

pub same_sound : (a b : Bool) → same a b ≡ true → a ≡ b
unfolding same
same_sound true true h = refl
same_sound true false h = cc
same_sound false true h = cc
same_sound false false h = refl
