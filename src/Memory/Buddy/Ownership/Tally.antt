-- ===== src/Memory/Buddy/Ownership/Tally.antt =====
-- There are no more held frames than physical frames, so the ledger of the buddy allocator does not overflow.
use rusty_core.Prelude.{ℕ, zero, suc, ◌+◌, ◌*◌, ◌%◌, ◌^◌, ◌<◌, ◌≤◌, ◌≡◌, refl, List, [], ◌∷◌, arith}
use native.Mathlib.Decide.{dec_lt}
use rusty_core.Prelude.Vecs.{sum_by, All}
use rusty_core.Memory.Regions.{frame_size, phys_limit}
use rusty_core.Memory.Buddy.Weights.{within}
use rusty_core.Memory.Buddy.Ownership.{held_at, held_count, IsFrame}

-- How many of the first `n` physical frames frame `a` is, and how many of them are held.
hits : ℕ → ℕ → ℕ
hits a zero = 0
hits a (suc n) = hits a n + within a (a + frame_size) (n * frame_size)

tally : List ℕ → ℕ → ℕ
tally held zero = 0
tally held (suc n) = tally held n + held_at held (n * frame_size)

hits-none : (a n : ℕ) → a % frame_size ≡ 0 → n * frame_size ≤ a → hits a n ≡ 0
unfolding hits
hits-none a zero aligned le = refl
hits-none a (suc n) aligned le =
    let before : within a (a + frame_size) (n * frame_size) ≡ 0 = ground arith in
    omega (arith, before, hits-none a n aligned (omega arith))

hits-one : (a n : ℕ) → a % frame_size ≡ 0 → a < n * frame_size → hits a n ≡ 1
unfolding hits
hits-one a zero aligned lt = absurd (omega arith)
hits-one a (suc n) aligned lt = elim (dec_lt a (n * frame_size)) [
  | yes earlier ↦
      let behind : within a (a + frame_size) (n * frame_size) ≡ 0 = ground arith in
      omega (arith, behind, hits-one a n aligned earlier)
  | no here ↦
      let same : a ≡ n * frame_size = omega arith in
      let inside : within a (a + frame_size) (n * frame_size) ≡ 1 = ground arith in
      omega (arith, inside, hits-none a n aligned (omega arith))
]

tally-nil : (n : ℕ) → tally [] n ≡ 0
unfolding tally sum_by
tally-nil zero = refl
tally-nil (suc n) = omega (arith, tally-nil n)

tally-cons : (a : ℕ) (held : List ℕ) (n : ℕ) → tally (a ∷ held) n ≡ hits a n + tally held n
unfolding tally hits sum_by
tally-cons a held zero = refl
tally-cons a held (suc n) = omega (arith, tally-cons a held n)

tally-le : (held : List ℕ) (n : ℕ) → ((x : ℕ) → held_at held x ≤ 1) → tally held n ≤ n
unfolding tally
tally-le held zero once = omega arith
tally-le held (suc n) once = omega (arith, tally-le held n once, once (n * frame_size))

tally-count :
    (held : List ℕ) (n : ℕ)
    → phys_limit ≤ n * frame_size
    → All IsFrame held
    → tally held n ≡ held_count held
unfolding sum_by
tally-count [] n wide frames = tally-nil n
tally-count (a ∷ held) n wide frames =
    let f = frames.0 in
    omega (
      arith,
      tally-cons a held n,
      hits-one a n f.aligned (omega (arith, f.physical)),
      tally-count held n wide frames.1,
    )

-- Frames that do not overlap are at most as many as fit below the physical limit.
pub held_few :
    (held : List ℕ) → All IsFrame held → ((x : ℕ) → held_at held x ≤ 1) → held_count held ≤ 2 ^ 40
held_few held frames once =
    omega (arith, tally-count held (2 ^ 40) (omega arith) frames, tally-le held (2 ^ 40) once)
