-- ===== src/Prelude/Outcomes.antt =====
-- What a call of Rust code does: it returns, it panics (a failed assertion, an `expect` on `None`, or
-- arithmetic overflow in the dev profile), or, for a loop on fuel, it is still running.
use mathlib.Core.Bool.{Bool, true, false}
use mathlib.Core.Path.{◌≡◌, refl, subst}

pub data Outcome {ℓ} (A : Type ℓ) : Type ℓ where
  done : A → Outcome A
  panics : Outcome A
  running : Outcome A

infixl 5 ◌>>=◌ ◌>>◌
abbrev pub ◌>>=◌ {ℓ κ} : {A : Type ℓ} {B : Type κ} → Outcome A → (A → Outcome B) → Outcome B
done a >>= f = f a
panics >>= f = panics
running >>= f = running

abbrev pub ◌>>◌ {ℓ} : {B : Type ℓ} → Outcome (Unit {0}) → Outcome B → Outcome B
m >> k = m >>= λ _. k

-- `assert!(b)`.
abbrev pub assert : Bool → Outcome (Unit {0})
assert true = done tt
assert false = panics

-- `P` holds of what a call returns, if it returns.
abbrev pub Ensures {ℓ κ} : {A : Type ℓ} → (A → Type κ) → Outcome A → Type κ
Ensures P (done a) = P a
Ensures P panics = Unit
Ensures P running = Unit

pub bind-Ensures {ℓ κ μ} :
    {A : Type ℓ} {B : Type κ} (P : B → Type μ) (m : Outcome A) (f : A → Outcome B)
    → ((a : A) → m ≡ done a → Ensures P (f a))
    → Ensures P (m >>= f)
bind-Ensures P (done a) f each = each a refl
bind-Ensures P panics f each = tt
bind-Ensures P running f each = tt

pub ensured {ℓ κ} :
    {A : Type ℓ} (P : A → Type κ) (m : Outcome A) (a : A) → m ≡ done a → Ensures P m → P a
ensured P m a e holds = subst (Ensures P) e holds
