-- ===== src/Config/Reader/Entries.antt =====
-- The entries of the configuration, and the choices that `main` of kernel/build.rs takes from them.
use rusty_core.Prelude.{
  ℕ, ◌≡◌, refl, sym, ap, ◌∙◌, subst, true, false, ◌||◌, Option, none, some, List, [], ◌∷◌, map,
  if◌then◌else◌, Bool-cases, inl, inr, done,
}
use rusty_core.Config.{trim}
use rusty_core.Config.Text.{
  same_text, before, split_once, trim_matches, is_quote, to_lower, starts_with,
}
use rusty_core.Config.Reader.{
  Reader, name_of, header, assign, read_entry, read_line, read_lines, memory, frame_allocator_key,
  sched_section, default_key,
}
use rusty_core.Config.Reader.Onward.{
  Goes, read_entry-Goes, is_blank, read_line-blank, read_line-header, read_line-entry, bind-done,
}
use rusty_core.Config.Reader.Noted.{noted, IsNoted, assign-IsNoted, done-inj}

-- A key with its section and its value, as the file gives them.
pub record Entry : Type 0 where
  pub section : List ℕ
  pub key : List ℕ
  pub value : List ℕ

-- What the line says about its key, if it has one.
abbrev pub entry_of : List ℕ → List ℕ → List Entry → List Entry
entry_of section line rest = elim (split_once 61 (trim (before 35 line))) [
  | none ↦ rest
  | some (k, v) ↦
      record {
        section = section;
        key = name_of (trim k);
        value = map to_lower (trim (trim_matches is_quote (trim v)));
      }
      ∷ rest
]

-- The entries below a line in `section`.
unfoldable pub entries_below : List ℕ → List (List ℕ) → List Entry
entries_below section [] = []
entries_below section (raw ∷ rest) =
    let same = entries_below section rest in
    if same_text (trim raw) [] || starts_with 35 (trim raw)
    then same
    else elim (header (trim raw)) [
      | some name ↦ entries_below (name_of (trim name)) rest
      | none ↦ entry_of section (trim raw) same
    ]

-- The last value of the key in the section, or `best` where there is none.
unfoldable pub chosen : List ℕ → List ℕ → Option (List ℕ) → List Entry → Option (List ℕ)
chosen section key best [] = best
chosen section key best (e ∷ es) =
    chosen section key (noted section key e.section e.key e.value best) es

-- The choices of `r'` are those of `r` with the entries after them.
pub record IsChosen (r r' : Reader) (es : List Entry) : Type 0 where
  pub frames : r'.frame_allocator ≡ chosen memory frame_allocator_key r.frame_allocator es
  pub policy : r'.sched ≡ chosen sched_section default_key r.sched es

module _ (section : List ℕ) (raw : List ℕ) (rest : List (List ℕ)) where
  entries_below-blank :
      same_text (trim raw) [] || starts_with 35 (trim raw) ≡ true
      → entries_below section (raw ∷ rest) ≡ entries_below section rest
  unfolding entries_below
  entries_below-blank e = rw e

  entries_below-header :
      (name : List ℕ)
      → same_text (trim raw) [] || starts_with 35 (trim raw) ≡ false
      → header (trim raw) ≡ some name
      → entries_below section (raw ∷ rest) ≡ entries_below (name_of (trim name)) rest
  unfolding entries_below
  entries_below-header name e h = rw (e, h)

  entries_below-entry :
      same_text (trim raw) [] || starts_with 35 (trim raw) ≡ false
      → header (trim raw) ≡ none
      → entries_below section (raw ∷ rest)
        ≡ entry_of section (trim raw) (entries_below section rest)
  unfolding entries_below
  entries_below-entry e h = rw (e, h)

IsNoted-IsChosen :
    {upper v : List ℕ} {r s t : Reader} {es : List Entry}
    → IsNoted upper v r s
    → IsChosen s t es
    → IsChosen r t (record { section = r.section; key = upper; value = map to_lower v } ∷ es)
unfolding chosen
IsNoted-IsChosen {upper} {v} {r} {s} {t} {es} n h = record {
  frames = h.frames ∙ ap (λ b. chosen memory frame_allocator_key b es) n.frames;
  policy = h.policy ∙ ap (λ b. chosen sched_section default_key b es) n.policy;
}

-- One more entry before the others.
read_entry-IsChosen :
    (line : List ℕ) (r s t : Reader) (es : List Entry)
    → read_entry line r ≡ done s
    → IsChosen s t es
    → IsChosen r t (entry_of r.section line es)
unfolding read_entry
read_entry-IsChosen line r s t es e h = at (split_once 61 (trim (before 35 line))) e
  where
    at :
        (o : Option (List ℕ × List ℕ))
        → (elim o [
          | none ↦ done r
          | some (k, v) ↦ assign (name_of (trim k)) (trim (trim_matches is_quote (trim v))) r
        ])
          ≡ done s
        → IsChosen r t (elim o [
          | none ↦ es
          | some (k, v) ↦
              record {
                section = r.section;
                key = name_of (trim k);
                value = map to_lower (trim (trim_matches is_quote (trim v)));
              }
              ∷ es
        ])
    at none e = subst (λ x. IsChosen x t es) (sym (done-inj e)) h
    at (some (k, v)) e = IsNoted-IsChosen (assign-IsNoted _ _ r s e) h

read_entry-section :
    (line : List ℕ) (r s : Reader) → read_entry line r ≡ done s → s.section ≡ r.section
unfolding Goes
read_entry-section line r s e = (read_entry-Goes line r s e).section

pub read_lines-IsChosen :
    (raws : List (List ℕ)) (r r' : Reader)
    → read_lines raws r ≡ done r'
    → IsChosen r r' (entries_below r.section raws)
unfolding read_lines entries_below chosen
read_lines-IsChosen [] r r' e =
    subst (λ x. IsChosen r x []) (done-inj e) (record { frames = refl; policy = refl })
read_lines-IsChosen (raw ∷ rest) r r' e =
    let (s, one, later) = bind-done (read_line raw r) (read_lines rest) r' e in
    step s one (read_lines-IsChosen rest s r' later)
  where
    step :
        (s : Reader)
        → read_line raw r ≡ done s
        → IsChosen s r' (entries_below s.section rest)
        → IsChosen r r' (entries_below r.section (raw ∷ rest))
    step s one h = elim (Bool-cases (is_blank raw r)) [
      | inl b ↦ subst (IsChosen r r') (sym (entries_below-blank r.section raw rest b)) (
          subst (λ x. IsChosen x r' (entries_below x.section rest))
            (done-inj (sym one ∙ read_line-blank raw r b)) h)
      | inr b ↦ at b (header (trim raw)) refl
    ]
      where
        moved :
            {n : List ℕ} {es : List Entry}
            → IsChosen (record r { section = n }) r' es
            → IsChosen r r' es
        moved h = record { frames = h.frames; policy = h.policy }

        at :
            (is_blank raw r ≡ false)
            → (o : Option (List ℕ)) → header (trim raw) ≡ o
            → IsChosen r r' (entries_below r.section (raw ∷ rest))
        at b (some name) q =
            subst (IsChosen r r') (sym (entries_below-header r.section raw rest name b q)) (
              moved (
                subst (λ x. IsChosen x r' (entries_below x.section rest))
                  (done-inj (sym one ∙ read_line-header raw r name b q)) h))
        at b none q =
            let e2 = sym (read_line-entry raw r b q) ∙ one in
            subst (IsChosen r r') (sym (entries_below-entry r.section raw rest b q)) (
              read_entry-IsChosen (trim raw) r s r' (entries_below r.section rest) e2 (
                subst (λ x. IsChosen s r' (entries_below x rest))
                  (read_entry-section (trim raw) r s e2) h))
