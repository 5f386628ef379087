-- ===== src/Memory/Mapping/Heap.antt =====
-- The heap is mapped whole.
use rusty_core.Prelude.{
  ℕ, zero, suc, ◌+◌, ◌-◌, ◌*◌, ◌/◌, ◌%◌, ◌^◌, ◌<◌, ◌≤◌, ◌≡◌, ◌≢◌, ◌⊎◌, refl, ap, subst, ◌∙◌, inl,
  inr, none, some, done, ◌>>=◌, arith, eq-false, lt→ltb, u64_mod,
}
use rusty_core.Memory.Regions.{phys_limit}
use rusty_core.Memory.Mapping.{
  Paging, Flags, Result, virt_addr, containing_address, map_pages, map_range, map_heap, page_count,
}

-- A `Page` of the kernel half, `n` pages in a row there, and a `PhysFrame`, by their first addresses.
pub record IsRange (page n : ℕ) : Type 0 where
  pub aligned : page % 4096 ≡ 0
  pub kernel : 2 ^ 64 - 2 ^ 47 ≤ page
  pub end : page + n * 4096 ≤ u64_mod

abbrev pub IsPage : ℕ → Type 0
IsPage page = IsRange page 1

pub record IsPhysFrame (frame : ℕ) : Type 0 where
  pub aligned : frame % 4096 ≡ 0
  pub physical : frame < phys_limit

-- What the x86_64 crate documents of `map_to` and `translate_addr` on pages and frames, which are aligned, and what the allocator has to give:
-- `spare` counts its frames, of which `map_to` takes three at most, for new tables, and `taken` are those it
-- has handed out.
module _ {M A : Type 0} (paging : Paging M A) (spare : A → ℕ) (taken : A → ℕ → Type 0) where
  -- The page at `page` leads to the frame at `frame`, and every other address where it led before.
  pub record IsMapped (page frame : ℕ) (m m' : M) : Type 0 where
    pub inside :
        (v : ℕ)
        → page ≤ v
        → v < page + 4096
        → paging.translate_addr v m' ≡ some (frame + (v - page))
    pub outside :
        (v : ℕ)
        → (v < page) ⊎ (page + 4096 ≤ v)
        → paging.translate_addr v m' ≡ paging.translate_addr v m

  abbrev pub IsFree : ℕ → M → Type 0
  IsFree page m = (v : ℕ) → page ≤ v → v < page + 4096 → paging.translate_addr v m ≡ none

  pub record IsPaging : Type 0 where
    pub maps :
        (page frame : ℕ) (flags : Flags) (m : M) (a : A)
        → IsPage page
        → IsPhysFrame frame
        → IsFree page m
        → 3 ≤ spare a
        → (m' : M) × (a' : A) × (paging.map_to page frame flags m a ≡ done (none, m', a'))
          × IsMapped page frame m m'
          × (spare a ≤ spare a' + 3)
          × ((g : ℕ) → taken a g → taken a' g)
    pub hands_out :
        (a : A)
        → 0 < spare a
        → (f : ℕ) × (a' : A) × (paging.allocate_frame a ≡ done (some f, a'))
          × IsPhysFrame f
          × (spare a ≡ spare a' + 1)
          × (¬ (taken a f) × taken a' f)
          × ((g : ℕ) → taken a g → taken a' g)

  -- Each of the `n` pages from `page` on leads to a frame of its own, which the allocator has handed out for
  -- it, and the other addresses lead where they led.
  pub record AreMapped (n page : ℕ) (m m' : M) (a a' : A) : Type 0 where
    pub frame : ℕ → ℕ
    pub inside :
        (i v : ℕ)
        → i < n
        → page + i * 4096 ≤ v
        → v < page + i * 4096 + 4096
        → paging.translate_addr v m' ≡ some (frame i + (v - (page + i * 4096)))
    pub outside :
        (v : ℕ)
        → (v < page) ⊎ (page + n * 4096 ≤ v)
        → paging.translate_addr v m' ≡ paging.translate_addr v m
    pub fresh : (i : ℕ) → i < n → ¬ (taken a (frame i)) × taken a' (frame i)
    pub distinct : (i j : ℕ) → i < j → j < n → frame i ≢ frame j
    pub kept : (g : ℕ) → taken a g → taken a' g

  abbrev first_then : ℕ → (ℕ → ℕ) → ℕ → ℕ
  first_then f frame zero = f
  first_then f frame (suc i) = frame i

  AreMapped-cons :
      (n page f : ℕ) (m m2 m' : M) (a a2 a3 a' : A)
      → IsMapped page f m m2
      → ¬ (taken a f) × taken a2 f
      → ((g : ℕ) → taken a g → taken a2 g)
      → ((g : ℕ) → taken a2 g → taken a3 g)
      → AreMapped n (page + 4096) m2 m' a3 a'
      → AreMapped (suc n) page m m' a a'
  AreMapped-cons n page f m m2 m' a a2 a3 a' here new keep2 keep3 rest = record {
    frame = first_then f rest.frame;
    inside = inside;
    outside = λ v h. rest.outside v (wider v h) ∙ here.outside v (thinner v h);
    fresh = fresh;
    distinct = distinct;
    kept = λ g t. rest.kept g (keep3 g (keep2 g t));
  }
    where
      inside :
          (i v : ℕ)
          → i < suc n
          → page + i * 4096 ≤ v
          → v < page + i * 4096 + 4096
          → paging.translate_addr v m' ≡ some (first_then f rest.frame i + (v - (page + i * 4096)))
      inside zero v lt lo hi =
          rest.outside v (inl (omega arith))
          ∙ here.inside v (omega arith) (omega arith)
          ∙ ap (λ (k : ℕ). some (f + k)) (omega arith)
      inside (suc i) v lt lo hi =
          rest.inside i v (omega arith) (omega arith) (omega arith)
          ∙ ap (λ (k : ℕ). some (rest.frame i + k)) (omega arith)

      wider :
          (v : ℕ)
          → (v < page) ⊎ (page + suc n * 4096 ≤ v)
          → (v < page + 4096) ⊎ (page + 4096 + n * 4096 ≤ v)
      wider v h = ground arith

      thinner : (v : ℕ) → (v < page) ⊎ (page + suc n * 4096 ≤ v) → (v < page) ⊎ (page + 4096 ≤ v)
      thinner v h = ground arith

      fresh :
          (i : ℕ)
          → i < suc n
          → ¬ (taken a (first_then f rest.frame i)) × taken a' (first_then f rest.frame i)
      fresh zero lt = (new.0, rest.kept f (keep3 f new.1))
      fresh (suc i) lt =
          let later = rest.fresh i (omega arith) in (λ t. later.0 (keep3 _ (keep2 _ t)), later.1)

      distinct :
          (i j : ℕ) → i < j → j < suc n → first_then f rest.frame i ≢ first_then f rest.frame j
      distinct i zero lt le = absurd (omega arith)
      distinct zero (suc j) lt le =
          λ e. (rest.fresh j (omega arith)).0 (keep3 _ (subst (taken a2) e new.1))
      distinct (suc i) (suc j) lt le = rest.distinct i j (omega arith) (omega arith)

  map_pages-AreMapped :
      (n page : ℕ) (m : M) (a : A)
      → IsPaging
      → IsRange page n
      → ((v : ℕ) → page ≤ v → v < page + n * 4096 → paging.translate_addr v m ≡ none)
      → 4 * n ≤ spare a
      → (m' : M) × (a' : A) × (map_pages paging n page m a ≡ done (Result.ok tt, m', a'))
        × AreMapped n page m m' a a'
  unfolding map_pages
  map_pages-AreMapped zero page m a laws range unmapped enough = (
    m,
    a,
    refl,
    record {
      frame = λ i. 0;
      inside = λ i v lt lo hi. absurd (omega arith);
      outside = λ v h. refl;
      fresh = λ i lt. absurd (omega arith);
      distinct = λ i j lt le. absurd (omega arith);
      kept = λ g t. t;
    },
  )
  map_pages-AreMapped (suc n) page m a laws range unmapped enough =
      let (f, a2, handed, whole, fewer, new, keep2) = laws.hands_out a (omega arith) in
      let (m2, a3, mapped, here, tables, keep3) =
        laws.maps page f Flags.ram m a2 (omega (arith, range)) whole
          (λ v lo hi. unmapped v lo (omega arith)) (omega arith) in
      let (m', a', ran, rest) =
        map_pages-AreMapped n (page + 4096) m2 a3 laws (omega (arith, range))
          (λ v lo hi. here.outside v (inr lo) ∙ unmapped v (omega arith) (omega arith))
          (omega arith) in
      (
        m',
        a',
        rw (handed, ◌>>=◌, mapped) ran,
        AreMapped-cons n page f m m2 m' a a2 a3 a' here new keep2 keep3 rest,
      )

  kernel_half : (a : ℕ) → 2 ^ 64 - 2 ^ 47 ≤ a → virt_addr a ≡ done a
  unfolding virt_addr
  kernel_half a high = ground arith

  covers :
      (start end v : ℕ)
      → start < end
      → start ≤ v
      → v < end
      → (i : ℕ) × (i < page_count paging start end)
        × (containing_address start + i * 4096 ≤ v)
        × (v < containing_address start + i * 4096 + 4096)
  covers start end v lt lo hi =
      ((v - containing_address start) / 4096, omega arith, omega arith, omega arith)

  -- In the kernel half, when the pages of the range lead nowhere yet and four frames are left for each of them,
  -- `map_heap` succeeds: every address of the range lies in one of the pages, each page leads to a frame of
  -- its own that the allocator has just handed out, and every address outside of them leads where it led.
  pub map_heap-AreMapped :
      (start size : ℕ) (m : M) (a : A)
      → IsPaging
      → 0 < size
      → 2 ^ 64 - 2 ^ 47 ≤ start
      → start + size < u64_mod
      → ((v : ℕ)
          → containing_address start ≤ v
          → v < containing_address start + page_count paging start (start + size) * 4096
          → paging.translate_addr v m ≡ none)
      → 4 * page_count paging start (start + size) ≤ spare a
      → (m' : M) × (a' : A) × (map_heap paging start size m a ≡ done (Result.ok tt, m', a'))
        × AreMapped (page_count paging start (start + size)) (containing_address start) m m' a a'
        × ((v : ℕ)
            → start ≤ v
            → v < start + size
            → (i : ℕ) × (i < page_count paging start (start + size))
              × (containing_address start + i * 4096 ≤ v)
              × (v < containing_address start + i * 4096 + 4096))
  unfolding map_heap map_range
  map_heap-AreMapped start size m a laws some_bytes high fits unmapped enough =
      let n : ℕ = page_count paging start (start + size) in
      let (m', a', ran, mapped) =
        map_pages-AreMapped n (containing_address start) m a laws (omega arith) unmapped enough in
      (
        m',
        a',
        rw
            (
              eq-false size 0 (λ z. omega arith),
              lt→ltb (start + size) u64_mod fits,
              kernel_half start high,
              ◌>>=◌,
              kernel_half (start + size - 1) (omega arith),
            )
            ran,
        mapped,
        λ v lo hi. covers start (start + size) v (omega arith) lo hi,
      )
