-- ===== src/Config/Qemu/Agreement.antt =====
-- What xtask reads from the configuration, the build script has exported.
use mathlib.Core.List.{append-nil}
use rusty_core.Prelude.{
  ℕ, ◌≡◌, refl, sym, ap, ◌∙◌, subst, Bool, true, false, not, Option, none, some, List, [], ◌∷◌,
  ◌++◌, if◌then◌else◌, Bool-cases, some_inj, inl, inr, done,
}
use rusty_core.Prelude.Vecs.{push, pop}
use rusty_core.Config.{trim_start, trim_end_matches, strip_suffix, trim}
use rusty_core.Config.Text.{
  codes, same_text, lines, before, split_once, starts_with, trim_matches, is_quote,
}
use rusty_core.Config.Reader.{
  Setting, Reader, Features, first_reader, prefix, name_of, header, emit, emit_key, assign,
  read_entry, read_line, read_lines, main,
}
use rusty_core.Config.Qemu.{qemu_header, Scan, look, scan_line, scan, qemu_cfg}
use rusty_core.Config.Reader.Onward.{
  IsGrown, IsGrown-trans, IsExported-IsGrown, IsOnward-refl, IsOnward-trans, emit-IsOnward, Goes,
  Goes-done, checked-Goes, assign-Goes, read_line-blank, read_line-header, read_line-entry,
  read_entry-Goes, header-none, bind-done, IsExported, checked, is_blank, same_text_sound,
}
use rusty_core.Config.Reader.Choices.{main-done}

abbrev pub qemu : List ℕ
qemu = codes "QEMU"

-- The variable of a key of the section.
abbrev pub qemu_variable : List ℕ → List ℕ
qemu_variable key = prefix ++ (qemu ++ (95 ∷ name_of key))

assign-IsExported :
    (upper v : List ℕ) (r r' : Reader)
    → r.section ≡ qemu
    → assign upper v r ≡ done r'
    → IsExported (prefix ++ (qemu ++ (95 ∷ upper))) v r'.env
unfolding assign emit push IsExported Goes
assign-IsExported upper v r r' section e =
    let s : Reader = emit (r.section ++ (95 ∷ upper)) v r in
    let key : emit_key upper v r ≡ emit upper v s = rw (section, emit_key) refl in
    let later = IsOnward-trans (emit-IsOnward upper v s) (
      checked-Goes upper v (emit upper v s) r'
        (subst (λ (t : Reader). checked upper v t ≡ done r') key e)) in
    IsExported-IsGrown (prefix ++ (qemu ++ (95 ∷ upper))) v s.env r'.env
      (r.env, [], ap (λ (n : List ℕ). push r.env (prefix ++ (n ++ (95 ∷ upper)), v)) section)
      later.grown

-- What a line has done to the reader of the script, by what it has done to the scan.
abbrev IsNext : List ℕ → Scan → Reader → Reader → Type 0
IsNext key (Scan.looking on) r r' = (on ≡ true → r'.section ≡ qemu) × IsGrown r.env r'.env
IsNext key (Scan.found v) r r' = IsExported (qemu_variable key) (trim v) r'.env

look-IsNext :
    (key line : List ℕ) (r r' : Reader)
    → r.section ≡ qemu
    → read_entry line r ≡ done r'
    → IsNext key (look key line) r r'
unfolding look read_entry Goes
look-IsNext key line r r' section e = at (split_once 61 (trim (before 35 line))) e
  where
    at :
        (o : Option (List ℕ × List ℕ))
        → (elim o [
          | none ↦ done r
          | some (k, v) ↦ assign (name_of (trim k)) (trim (trim_matches is_quote (trim v))) r
        ])
          ≡ done r'
        → IsNext key
            (elim o [
              | none ↦ Scan.looking true
              | some (k, v) ↦
                  if same_text (trim k) key
                  then Scan.found (trim_matches is_quote (trim v))
                  else Scan.looking true
            ])
            r
            r'
    at none e = let p = Goes-done (IsOnward-refl r) r' e in (λ on. p.section ∙ section, p.grown)
    at (some (k, v)) e = elim (Bool-cases (same_text (trim k) key)) [
      | inl same ↦ rw same (
          subst
            (λ (n : List ℕ).
              IsExported (qemu_variable n) (trim (trim_matches is_quote (trim v))) r'.env)
            (same_text_sound (trim k) key same)
            (assign-IsExported (name_of (trim k)) (trim (trim_matches is_quote (trim v))) r r'
              section e))
      | inr other ↦
          let p = assign-Goes (name_of (trim k)) (trim (trim_matches is_quote (trim v))) r r' e in
          rw other (λ on. p.section ∙ section, p.grown)
    ]

qemu_header-read :
    (name_of (trim (codes "qemu")) ≡ qemu) × (header qemu_header ≡ some (codes "qemu"))
unfolding name_of trim trim_start trim_end_matches header strip_suffix pop
qemu_header-read = (refl, refl)

header-IsNext :
    (raw : List ℕ) (r r' : Reader)
    → is_blank raw r ≡ false
    → read_line raw r ≡ done r'
    → (same_text (trim raw) qemu_header ≡ true → r'.section ≡ qemu) × IsGrown r.env r'.env
unfolding Goes IsGrown
header-IsNext raw r r' b e = at (header (trim raw)) refl
  where
    at :
        (o : Option (List ℕ))
        → header (trim raw) ≡ o
        → (same_text (trim raw) qemu_header ≡ true → r'.section ≡ qemu) × IsGrown r.env r'.env
    at none h = (
      λ same. absurd (no (sym h ∙ ap header (same_text_sound _ _ same) ∙ qemu_header-read.1)),
      (read_entry-Goes (trim raw) r r' (sym (read_line-entry raw r b h) ∙ e)).grown,
    )
      where
        no : {name : List ℕ} → none ≡ some name → ⊥
        no e = cc
    at (some name) h =
        let read : record r { section = name_of (trim name) } ≡ r' =
          inj (sym (read_line-header raw r name b h) ∙ e) in
        (
          λ same.
              ap (λ (t : Reader). t.section) (sym read)
              ∙ ap (λ (n : List ℕ). name_of (trim n))
                  (some_inj (sym h ∙ ap header (same_text_sound _ _ same) ∙ qemu_header-read.1))
              ∙ qemu_header-read.0,
          ([], ap (λ (t : Reader). t.env) (sym read) ∙ sym (append-nil r.env)),
        )
      where
        inj : {a b : Reader} → done a ≡ done b → a ≡ b
        inj e = cc

scan_line-IsNext :
    (key : List ℕ) (in_qemu : Bool) (raw : List ℕ) (r r' : Reader)
    → (in_qemu ≡ true → r.section ≡ qemu)
    → read_line raw r ≡ done r'
    → IsNext key (scan_line key in_qemu raw) r r'
unfolding scan_line Goes
scan_line-IsNext key in_qemu raw r r' inside e = elim (Bool-cases (is_blank raw r)) [
  | inl b ↦
      let p = Goes-done (IsOnward-refl r) r' (sym (read_line-blank raw r b) ∙ e) in
      rw (b, scan_line) (λ on. p.section ∙ inside on, p.grown)
  | inr b ↦ elim (Bool-cases (starts_with 91 (trim raw))) [
    | inl h ↦ rw (b, h, scan_line) (header-IsNext raw r r' b e)
    | inr h ↦
        rw (b, h, scan_line)
          (under in_qemu inside (sym (read_line-entry raw r b (header-none (trim raw) h)) ∙ e))
  ]
]
  where
    under :
        (on : Bool)
        → (on ≡ true → r.section ≡ qemu)
        → read_entry (trim raw) r ≡ done r'
        → IsNext key (if not on then Scan.looking false else look key (trim raw)) r r'
    under false inside e = (λ on. cc, (read_entry-Goes (trim raw) r r' e).grown)
    under true inside e = look-IsNext key (trim raw) r r' (inside refl) e

read_line-IsGrown :
    (raw : List ℕ) (r r' : Reader) → read_line raw r ≡ done r' → IsGrown r.env r'.env
unfolding Goes
read_line-IsGrown raw r r' e = elim (Bool-cases (is_blank raw r)) [
  | inl b ↦ (Goes-done (IsOnward-refl r) r' (sym (read_line-blank raw r b) ∙ e)).grown
  | inr b ↦ (header-IsNext raw r r' b e).1
]

read_lines-IsGrown :
    (raws : List (List ℕ)) (r r' : Reader) → read_lines raws r ≡ done r' → IsGrown r.env r'.env
unfolding read_lines Goes
read_lines-IsGrown [] r r' e = (Goes-done (IsOnward-refl r) r' e).grown
read_lines-IsGrown (raw ∷ rest) r r' e =
    let (s, first, later) = bind-done (read_line raw r) (read_lines rest) r' e in
    IsGrown-trans r.env s.env r'.env (read_line-IsGrown raw r s first)
      (read_lines-IsGrown rest s r' later)

scan-IsExported :
    (key v : List ℕ) (in_qemu : Bool) (raws : List (List ℕ)) (r r' : Reader)
    → (in_qemu ≡ true → r.section ≡ qemu)
    → read_lines raws r ≡ done r'
    → scan key in_qemu raws ≡ some v
    → IsExported (qemu_variable key) (trim v) r'.env
unfolding read_lines scan
scan-IsExported key v in_qemu [] r r' inside read e = cc
scan-IsExported key v in_qemu (raw ∷ rest) r r' inside read e =
    let (s, first, later) = bind-done (read_line raw r) (read_lines rest) r' read in
    at (scan_line key in_qemu raw) s (λ on h. scan-IsExported key v on rest s r' h later) later
      (scan_line-IsNext key in_qemu raw r s inside first) e
  where
    at :
        (next : Scan) (s : Reader)
        → ((on : Bool)
            → (on ≡ true → s.section ≡ qemu)
            → scan key on rest ≡ some v
            → IsExported (qemu_variable key) (trim v) r'.env)
        → read_lines rest s ≡ done r'
        → IsNext key next r s
        → (elim next [ Scan.found w ↦ some w | Scan.looking on ↦ scan key on rest ]) ≡ some v
        → IsExported (qemu_variable key) (trim v) r'.env
    at (Scan.looking on) s again later next e = again on next.0 e
    at (Scan.found w) s again later next e =
        IsExported-IsGrown (qemu_variable key) (trim v) s.env r'.env
          (subst (λ (u : List ℕ). IsExported (qemu_variable key) (trim u) s.env) (some_inj e) next)
          (read_lines-IsGrown rest s r' later)

-- Whatever the file looks like: when the build goes on, and xtask finds a value for a key, xtask uses
-- that value whatever its fallback, and the value, trimmed, is among those to which the build script has
-- set the variable of the key in the section QEMU. The script may have set that variable to others as well.
pub qemu_cfg-IsExported :
    (text key v : List ℕ) (f : Features) (env : List Setting)
    → main text f ≡ done env
    → scan key false (lines text) ≡ some v
    → ((fallback : List ℕ) → qemu_cfg text key fallback ≡ v)
      × IsExported (qemu_variable key) (trim v) env
unfolding qemu_cfg
qemu_cfg-IsExported text key v f env built e =
    let (r, read, agreed, same) = main-done text f env built in
    (
      λ fallback. rw (e, qemu_cfg) refl,
      subst (IsExported (qemu_variable key) (trim v)) same
          (scan-IsExported key v false (lines text) first_reader r (λ on. cc) read e),
    )
