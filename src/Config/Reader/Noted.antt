-- ===== src/Config/Reader/Noted.antt =====
-- What one entry makes of the choices in `main` of kernel/build.rs.
use rusty_core.Prelude.{
  ℕ, ◌≡◌, ap, ◌∙◌, subst, ◌&&◌, Option, some, List, map, if◌then◌else◌, done, arith,
}
use rusty_core.Config.Text.{same_text, to_lower}
use rusty_core.Config.Reader.{
  Reader, emit, emit_key, emit_heap, emit_stack, note_choice, assign, memory, frame_allocator_key,
  sched_section, default_key,
}
use rusty_core.Config.Reader.Onward.{bind-done}

-- What an entry makes of the value so far: the entry of the key in the section takes its place.
abbrev pub noted : List ℕ → List ℕ → List ℕ → List ℕ → List ℕ → Option (List ℕ) → Option (List ℕ)
noted section key s k v best = if same_text s section && same_text k key then some v else best

-- The section and the two choices of a reader.
record IsSame (r r' : Reader) : Type 0 where
  section : r'.section ≡ r.section
  frames : r'.frame_allocator ≡ r.frame_allocator
  policy : r'.sched ≡ r.sched

emit_heap-IsSame : (upper v : List ℕ) (r r' : Reader) → emit_heap upper v r ≡ done r' → IsSame r r'
unfolding emit_heap emit
emit_heap-IsSame upper v r r' e = record {
  section = ground arith;
  frames = ground arith;
  policy = ground arith;
}

emit_stack-IsSame :
    (upper v : List ℕ) (r r' : Reader) → emit_stack upper v r ≡ done r' → IsSame r r'
unfolding emit_stack emit
emit_stack-IsSame upper v r r' e = record {
  section = ground arith;
  frames = ground arith;
  policy = ground arith;
}

emit_key-IsSame : (upper v : List ℕ) (r : Reader) → IsSame r (emit_key upper v r)
unfolding emit_key emit
emit_key-IsSame upper v r = record {
  section = ground arith;
  frames = ground arith;
  policy = ground arith;
}

pub record IsNoted (upper v : List ℕ) (r r' : Reader) : Type 0 where
  pub section : r'.section ≡ r.section
  pub frames :
      r'.frame_allocator
      ≡ noted memory frame_allocator_key r.section upper (map to_lower v) r.frame_allocator
  pub policy : r'.sched ≡ noted sched_section default_key r.section upper (map to_lower v) r.sched

note_choice-IsNoted : (upper v : List ℕ) (r : Reader) → IsNoted upper v r (note_choice upper v r)
unfolding note_choice
note_choice-IsNoted upper v r = record {
  section = ground arith;
  frames = ground arith;
  policy = ground arith;
}

IsNoted-after :
    {upper v : List ℕ} {r s t : Reader} → IsSame r s → IsNoted upper v s t → IsNoted upper v r t
IsNoted-after {upper} {v} {r} {s} {t} p q = record {
  section = q.section ∙ p.section;
  frames =
      q.frames
      ∙ ap (λ x. noted memory frame_allocator_key x upper (map to_lower v) s.frame_allocator)
          p.section
      ∙ ap (λ b. noted memory frame_allocator_key r.section upper (map to_lower v) b) p.frames;
  policy =
      q.policy
      ∙ ap (λ x. noted sched_section default_key x upper (map to_lower v) s.sched) p.section
      ∙ ap (λ b. noted sched_section default_key r.section upper (map to_lower v) b) p.policy;
}

pub done-inj : {a b : Reader} → done a ≡ done b → a ≡ b
done-inj e = cc

pub assign-IsNoted :
    (upper v : List ℕ) (r r' : Reader) → assign upper v r ≡ done r' → IsNoted upper v r r'
unfolding assign
assign-IsNoted upper v r r' e =
    let (r2, heap, e1) = bind-done (emit_heap upper v (emit_key upper v r)) _ r' e in
    let (r3, stack, e2) = bind-done (emit_stack upper v r2) _ r' e1 in
    IsNoted-after (emit_key-IsSame upper v r) (
      IsNoted-after (emit_heap-IsSame upper v _ r2 heap) (
        IsNoted-after (emit_stack-IsSame upper v r2 r3 stack)
          (subst (IsNoted upper v r3) (done-inj e2) (note_choice-IsNoted upper v r3))))
