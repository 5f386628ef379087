-- ===== src/Prelude/Bits.antt =====
-- Laws of the bit operations at variables: the step from a number to its half, and the
-- complement of one bit, which the buddy allocator computes by `^`.
use Prim.Native.Nat.{
  ℕ, zero, suc, ◌+◌, ◌-◌, ◌*◌, ◌/◌, ◌%◌, ◌^◌, ◌≤◌, ◌<◌, bit_xor, digits, differ, bit_xor-bitwise,
}
use mathlib.Core.Path.{◌≡◌, refl, sym, ap, ap₂, ◌∙◌}
use native.Mathlib.Omega.{arith}
use native.Mathlib.Nat.{pow-suc, mul-one, mul_comm, le_refl}

-- The digits of `a ^ b`, from the lowest, of at most `fuel` digits of `a`.
abbrev xor_digits : ℕ → ℕ → ℕ → ℕ
xor_digits fuel a b = digits (λ rest. rest) differ fuel a b

xor_digits-nothing : (fuel b : ℕ) → xor_digits fuel 0 b ≡ b
xor_digits-nothing zero b = refl
xor_digits-nothing (suc fuel) b = refl

-- One more unit of fuel than `a` has use for changes nothing.
xor_digits-spare : (fuel a b : ℕ) → a ≤ fuel → xor_digits (suc fuel) a b ≡ xor_digits fuel a b
xor_digits-spare fuel zero b h = sym (xor_digits-nothing fuel b)
xor_digits-spare (suc fuel) (suc a) b h =
    ap (λ (t : ℕ). t * 2 + differ (suc a % 2) (b % 2))
      (xor_digits-spare fuel (suc a / 2) (b / 2) (omega arith))
xor_digits-spare zero (suc a) b h = absurd (omega arith)

-- So all fuels from `a` on agree with `a` itself.
xor_digits-exact : (spare a b : ℕ) → xor_digits (spare + a) a b ≡ xor_digits a a b
xor_digits-exact zero a b = ap (λ (n : ℕ). xor_digits n a b) (zero_plus a)
  where
    zero_plus : (n : ℕ) → 0 + n ≡ n
    zero_plus n = omega arith
xor_digits-exact (suc spare) a b =
    ap (λ (n : ℕ). xor_digits n a b) (suc_plus spare a)
    ∙ xor_digits-spare (spare + a) a b (omega arith)
    ∙ xor_digits-exact spare a b
  where
    suc_plus : (m n : ℕ) → suc m + n ≡ suc (m + n)
    suc_plus m n = omega arith

zero-bit_xor : (b : ℕ) → bit_xor 0 b ≡ b
zero-bit_xor b = bit_xor-bitwise 0 b

bit_xor_step : (a b : ℕ) → bit_xor a b ≡ bit_xor (a / 2) (b / 2) * 2 + differ (a % 2) (b % 2)
bit_xor_step zero b = simp zero-bit_xor (omega arith)
bit_xor_step (suc a) b =
    bit_xor-bitwise (suc a) b
    ∙ ap (λ (t : ℕ). t * 2 + differ (suc a % 2) (b % 2))
        (halved ∙ sym (bit_xor-bitwise (suc a / 2) (b / 2)))
  where
    halved : xor_digits a (suc a / 2) (b / 2) ≡ xor_digits (suc a / 2) (suc a / 2) (b / 2)
    halved =
        ap (λ (n : ℕ). xor_digits n (suc a / 2) (b / 2)) (omega arith)
        ∙ xor_digits-exact (a - suc a / 2) (suc a / 2) (b / 2)

differ-zero : (x : ℕ) → differ x 0 ≡ x
differ-zero zero = refl
differ-zero (suc x) = refl

differ-one : (x : ℕ) → x < 2 → differ x 1 ≡ 1 - x
differ-one zero h = refl
differ-one (suc zero) h = refl
differ-one (suc (suc x)) h = absurd (omega arith)

bit_xor-zero_bound : (n a : ℕ) → a ≤ n → bit_xor a 0 ≡ a
bit_xor-zero_bound n zero h = refl
bit_xor-zero_bound zero (suc a) h = absurd (omega arith)
bit_xor-zero_bound (suc n) (suc a) h = omega (
  arith,
  bit_xor_step (suc a) 0,
  differ-zero (suc a % 2),
  bit_xor-zero_bound n (suc a / 2) (omega arith),
)

pub bit_xor-zero : (a : ℕ) → bit_xor a 0 ≡ a
bit_xor-zero a = bit_xor-zero_bound a a (le_refl a)

-- The number whose lowest bit differs from that of `m`.
abbrev pub neighbour : ℕ → ℕ
neighbour m = m / 2 * 2 + (1 - m % 2)

mul-pow-suc : (m n : ℕ) → m * 2 ^ suc n ≡ 2 * (m * 2 ^ n)
mul-pow-suc m n = omega (arith, ap (λ (t : ℕ). m * t) (pow-suc 2 n))

bit_xor-double : (a b : ℕ) → bit_xor (2 * a) (2 * b) ≡ 2 * bit_xor a b
bit_xor-double a b = ground (
  arith,
  bit_xor_step (2 * a) (2 * b),
  ap₂ bit_xor (half a) (half b),
  ap₂ differ (even a) (even b),
)
  where
    half : (x : ℕ) → 2 * x / 2 ≡ x
    half x = omega arith

    even : (x : ℕ) → 2 * x % 2 ≡ 0
    even x = omega arith

-- `x ^ (1 << n)` at a multiple of `1 << n` goes to the neighbouring multiple.
pub bit_xor-pow : (n m : ℕ) → bit_xor (m * 2 ^ n) (2 ^ n) ≡ neighbour m * 2 ^ n
bit_xor-pow zero m = omega (
  arith,
  ap (λ (t : ℕ). bit_xor t 1) (mul-one m),
  bit_xor_step m 1,
  bit_xor-zero (m / 2),
  differ-one (m % 2) (omega arith),
)
bit_xor-pow (suc n) m =
    ap₂ bit_xor (mul-pow-suc m n) (pow-suc 2 n ∙ mul_comm (2 ^ n) 2)
    ∙ bit_xor-double (m * 2 ^ n) (2 ^ n)
    ∙ ap (λ (t : ℕ). 2 * t) (bit_xor-pow n m)
    ∙ sym (mul-pow-suc (neighbour m) n)
