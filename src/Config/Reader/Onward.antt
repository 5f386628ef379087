-- ===== src/Config/Reader/Onward.antt =====
-- What the reading of the configuration keeps, line by line.
use mathlib.Core.List.{append_assoc, append-nil}
use rusty_core.Prelude.{
  ℕ, ◌*◌, ◌≡◌, refl, sym, ap, ◌∙◌, subst, Bool, true, false, ◌&&◌, ◌||◌, Option, none, some, List,
  [], ◌∷◌, ◌++◌, map, if◌then◌else◌, Bool-cases, inl, inr, Outcome, done, panics, running, ◌>>=◌,
  arith, ltb, u64_mod,
}
use rusty_core.Prelude.Vecs.{push}
use rusty_core.Config.{trim, parse_u64, parse_size_bytes}
use rusty_core.Config.Text.{
  same_text, before, split_once, starts_with, trim_matches, is_quote, to_lower, decimal,
}
use rusty_core.Config.Reader.{
  Setting, Reader, prefix, name_of, header, emit, emit_key, emit_heap, emit_stack, note_choice,
  assign, read_entry, read_line, heap_size, heap_size_kb, stack_size, bytes, memory,
  frame_allocator_key, sched_section, default_key,
}

pub same_text_sound : (cs ds : List ℕ) → same_text cs ds ≡ true → cs ≡ ds
same_text_sound [] [] e = refl
same_text_sound [] (d ∷ ds) e = cc
same_text_sound (c ∷ cs) [] e = cc
same_text_sound (c ∷ cs) (d ∷ ds) e = ground (arith, same_text_sound cs ds)

-- The variable is set to the value somewhere among the settings.
unfoldable pub IsExported : List ℕ → List ℕ → List Setting → Type 0
IsExported name v env =
    (front : List Setting) × (back : List Setting) × (env ≡ front ++ ((name, v) ∷ back))

-- The settings grow at the end.
unfoldable pub IsGrown : List Setting → List Setting → Type 0
IsGrown old new = (more : List Setting) × (new ≡ old ++ more)

pub IsGrown-trans : (a b c : List Setting) → IsGrown a b → IsGrown b c → IsGrown a c
unfolding IsGrown
IsGrown-trans a b c (x, p) (y, q) =
    (x ++ y, q ∙ ap (λ (l : List Setting). l ++ y) p ∙ append_assoc a x y)

pub IsExported-IsGrown :
    (name v : List ℕ) (a b : List Setting) → IsExported name v a → IsGrown a b → IsExported name v b
unfolding IsExported IsGrown
IsExported-IsGrown name v a b (front, back, p) (more, q) = (
  front,
  back ++ more,
  q ∙ ap (λ (l : List Setting). l ++ more) p ∙ append_assoc front ((name, v) ∷ back) more,
)

-- What the reading of one entry keeps.
pub record IsOnward (r r' : Reader) : Type 0 where
  pub section : r'.section ≡ r.section
  pub grown : IsGrown r.env r'.env

pub IsOnward-refl : (r : Reader) → IsOnward r r
unfolding IsGrown
IsOnward-refl r = record { section = refl; grown = ([], sym (append-nil r.env)) }

pub IsOnward-trans : {r s t : Reader} → IsOnward r s → IsOnward s t → IsOnward r t
IsOnward-trans p q = record {
  section = q.section ∙ p.section;
  grown = IsGrown-trans _ _ _ p.grown q.grown;
}

pub emit-IsOnward : (name v : List ℕ) (r : Reader) → IsOnward r (emit name v r)
unfolding emit push IsGrown
emit-IsOnward name v r = record { section = refl; grown = ((prefix ++ name, v) ∷ [], refl) }

-- When the step returns, it has gone on.
unfoldable pub Goes : Reader → Outcome Reader → Type 0
Goes r o = (r' : Reader) → o ≡ done r' → IsOnward r r'

pub Goes-done : {r s : Reader} → IsOnward r s → Goes r (done s)
unfolding Goes
Goes-done {r} {s} h r' e = subst (IsOnward r) (inj e) h
  where
    inj : {a b : Reader} → done a ≡ done b → a ≡ b
    inj e = cc

pub Goes-panics : (r : Reader) → Goes r panics
unfolding Goes
Goes-panics r r' e = absurd (no e)
  where
    no : panics ≡ done r' → ⊥
    no e = cc

-- A step after a step.
pub Goes-bind :
    (r : Reader) (o : Outcome Reader) (f : Reader → Outcome Reader)
    → Goes r o
    → ((s : Reader) → Goes s (f s))
    → Goes r (o >>= f)
unfolding Goes
Goes-bind r (done s) f h g r' e = IsOnward-trans (h s refl) (g s r' e)
Goes-bind r panics f h g r' e = h r' e
Goes-bind r running f h g r' e = h r' e

emit_heap-Goes : (upper v : List ℕ) (r : Reader) → Goes r (emit_heap upper v r)
unfolding emit_heap
emit_heap-Goes upper v r = elim (Bool-cases (same_text upper heap_size_kb)) [
  | inl e ↦ rw (e, emit_heap) (at (parse_u64 v))
  | inr e ↦ rw (e, emit_heap) (Goes-done (IsOnward-refl r))
]
  where
    at :
        (o : Option ℕ)
        → Goes r (elim o [
          | none ↦ panics
          | some kb ↦
              if ltb (kb * 1024) u64_mod
              then done (emit (heap_size ++ bytes) (decimal (kb * 1024)) r)
              else panics
        ])
    at none = Goes-panics r
    at (some kb) = elim (Bool-cases (ltb (kb * 1024) u64_mod)) [
      | inl e ↦ rw e (Goes-done (emit-IsOnward _ _ r))
      | inr e ↦ rw e (Goes-panics r)
    ]

emit_stack-Goes : (upper v : List ℕ) (r : Reader) → Goes r (emit_stack upper v r)
unfolding emit_stack
emit_stack-Goes upper v r = elim (Bool-cases (same_text upper stack_size)) [
  | inl e ↦ rw (e, emit_stack) (at (parse_size_bytes v))
  | inr e ↦ rw (e, emit_stack) (Goes-done (IsOnward-refl r))
]
  where
    at :
        (o : Option ℕ)
        → Goes r (elim o [
          | none ↦ panics
          | some n ↦ done (emit (stack_size ++ (95 ∷ bytes)) (decimal n) r)
        ])
    at none = Goes-panics r
    at (some n) = Goes-done (emit-IsOnward _ _ r)

emit_key-IsOnward : (upper v : List ℕ) (r : Reader) → IsOnward r (emit_key upper v r)
unfolding emit_key
emit_key-IsOnward upper v r = elim (Bool-cases (same_text r.section [])) [
  | inl e ↦ rw e (emit-IsOnward upper v r)
  | inr e ↦
      rw e
        (IsOnward-trans (emit-IsOnward (r.section ++ (95 ∷ upper)) v r) (emit-IsOnward upper v _))
]

note_choice-IsOnward : (upper v : List ℕ) (r : Reader) → IsOnward r (note_choice upper v r)
unfolding note_choice IsGrown
note_choice-IsOnward upper v r =
    elim (Bool-cases (same_text r.section memory && same_text upper frame_allocator_key)) [
      | inl e ↦ rw e (second (record r { frame_allocator = some (map to_lower v) }) (named e))
      | inr e ↦ rw e (second r (IsOnward-refl r))
    ]
  where
    named :
        {b : Bool} → b ≡ true → IsOnward r (record r { frame_allocator = some (map to_lower v) })
    named e = record { section = refl; grown = ([], sym (append-nil r.env)) }

    second :
        (s : Reader)
        → IsOnward r s
        → IsOnward r (
            if same_text r.section sched_section && same_text upper default_key
            then record s { sched = some (map to_lower v) }
            else s)
    second s h =
        elim (Bool-cases (same_text r.section sched_section && same_text upper default_key)) [
          | inl e ↦ rw e (record { section = h.section; grown = h.grown })
          | inr e ↦ rw e h
        ]

-- What `assign` does once the key is set.
abbrev pub checked : List ℕ → List ℕ → Reader → Outcome Reader
checked upper v r = do
  r2 ← emit_heap upper v r
  r3 ← emit_stack upper v r2
  done (note_choice upper v r3)

pub checked-Goes : (upper v : List ℕ) (r : Reader) → Goes r (checked upper v r)
checked-Goes upper v r = Goes-bind r (emit_heap upper v r) _ (emit_heap-Goes upper v r) (λ s.
    Goes-bind s (emit_stack upper v s) _ (emit_stack-Goes upper v s)
      (λ t. Goes-done (note_choice-IsOnward upper v t)))

pub assign-Goes : (upper v : List ℕ) (r : Reader) → Goes r (assign upper v r)
unfolding assign Goes
assign-Goes upper v r r' e =
    IsOnward-trans (emit_key-IsOnward upper v r) (checked-Goes upper v (emit_key upper v r) r' e)

pub header-none : (line : List ℕ) → starts_with 91 line ≡ false → header line ≡ none
unfolding header
header-none [] e = refl
header-none (c ∷ cs) e = rw e

module _ (raw : List ℕ) (r : Reader) where
  abbrev pub is_blank : Bool
  is_blank = same_text (trim raw) [] || starts_with 35 (trim raw)

  pub read_line-blank : is_blank ≡ true → read_line raw r ≡ done r
  unfolding read_line
  read_line-blank e = rw e

  pub read_line-header :
      (name : List ℕ)
      → is_blank ≡ false
      → header (trim raw) ≡ some name
      → read_line raw r ≡ done (record r { section = name_of (trim name) })
  unfolding read_line
  read_line-header name e h = rw (e, h)

  pub read_line-entry :
      is_blank ≡ false → header (trim raw) ≡ none → read_line raw r ≡ read_entry (trim raw) r
  unfolding read_line
  read_line-entry e h = rw (e, h)

pub read_entry-Goes : (line : List ℕ) (r : Reader) → Goes r (read_entry line r)
unfolding read_entry
read_entry-Goes line r = at (split_once 61 (trim (before 35 line)))
  where
    at :
        (o : Option (List ℕ × List ℕ))
        → Goes r (elim o [
          | none ↦ done r
          | some (k, v) ↦ assign (name_of (trim k)) (trim (trim_matches is_quote (trim v))) r
        ])
    at none = Goes-done (IsOnward-refl r)
    at (some (k, v)) = assign-Goes (name_of (trim k)) (trim (trim_matches is_quote (trim v))) r

-- A chain that returns has gone through its first step.
pub bind-done :
    {A B : Type 0} (o : Outcome A) (f : A → Outcome B) (b : B)
    → (o >>= f) ≡ done b
    → (a : A) × (o ≡ done a) × (f a ≡ done b)
bind-done (done a) f b e = (a, refl, e)
bind-done panics f b e = cc
bind-done running f b e = cc
