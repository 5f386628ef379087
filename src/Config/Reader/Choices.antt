-- ===== src/Config/Reader/Choices.antt =====
-- When the build goes on: the file is read, and its choices agree with the features.
use rusty_core.Prelude.{
  ℕ, ◌≡◌, refl, ap, Bool, true, false, not, ◌&&◌, Option, none, some, List, [], ◌∷◌, if◌then◌else◌,
  ◌⊎◌, ◌↔◌, inl, inr, Outcome, done, panics, arith, subst,
}
use rusty_core.Config.Text.{same_text, lines}
use rusty_core.Config.Reader.{Setting, Reader, Features, first_reader, read_lines, main, agree}
use rusty_core.Config.Reader.{
  bump, buddy, rr, cfs, memory, frame_allocator_key, sched_section, default_key,
}
use rusty_core.Config.Reader.Entries.{chosen, entries_below, read_lines-IsChosen}
use rusty_core.Config.Reader.Onward.{bind-done, same_text_sound}

-- No choice, or the name of the one feature of the two that is selected.
abbrev pub IsAgreed : Option (List ℕ) → List ℕ → Bool → List ℕ → Bool → Type 0
IsAgreed choice one one_on two two_on =
    (choice ≡ none)
    ⊎ (((choice ≡ some one) × (one_on ≡ true) × (two_on ≡ false))
        ⊎ ((choice ≡ some two) × (two_on ≡ true) × (one_on ≡ false)))

-- The answer, by whether the choice is the first name, and whether it is the second.
abbrev answer : Bool → Bool → Bool → Bool → Outcome (Unit {0})
answer p q one_on two_on =
    if p && (one_on && not two_on)
    then done tt
    else if q && (two_on && not one_on)
    then done tt
    else panics

same_text_refl : (cs : List ℕ) → same_text cs cs ≡ true
same_text_refl [] = refl
same_text_refl (c ∷ cs) = ground (arith, same_text_refl cs)

agree-IsAgreed :
    (choice : Option (List ℕ)) (one two : List ℕ) (one_on two_on : Bool)
    → agree choice one one_on two two_on ≡ done tt
    → IsAgreed choice one one_on two two_on
unfolding agree
agree-IsAgreed none one two one_on two_on e = inl refl
agree-IsAgreed (some v) one two one_on two_on e =
    at (same_text v one) (same_text v two) one_on two_on (λ h. same_text_sound v one h)
      (λ h. same_text_sound v two h) e
  where
    at :
        (p q a b : Bool)
        → (p ≡ true → v ≡ one)
        → (q ≡ true → v ≡ two)
        → answer p q a b ≡ done tt
        → IsAgreed (some v) one a two b
    at true q true false f g e = inr (inl (ap some (f refl), refl, refl))
    at true true false true f g e = inr (inr (ap some (g refl), refl, refl))
    at false true false true f g e = inr (inr (ap some (g refl), refl, refl))
    at true true true true f g e = cc
    at true true false false f g e = cc
    at true false true true f g e = cc
    at true false false true f g e = cc
    at true false false false f g e = cc
    at false true true true f g e = cc
    at false true true false f g e = cc
    at false true false false f g e = cc
    at false false a b f g e = cc

IsAgreed-agree :
    (choice : Option (List ℕ)) (one two : List ℕ) (one_on two_on : Bool)
    → IsAgreed choice one one_on two two_on
    → agree choice one one_on two two_on ≡ done tt
unfolding agree
IsAgreed-agree choice one two one_on two_on (inl e) = rw (e, agree) refl
IsAgreed-agree choice one two one_on two_on (inr (inl (e, a, b))) =
    rw (e, a, b, same_text_refl one, agree) refl
IsAgreed-agree choice one two one_on two_on (inr (inr (e, a, b))) =
    rw (e, a, b, same_text_refl two, agree) (last (same_text two one))
  where
    last : (p : Bool) → answer p true false true ≡ done tt
    last true = refl
    last false = refl

-- What `main` checks of the two choices.
abbrev pub AreAgreed : Option (List ℕ) → Option (List ℕ) → Features → Type 0
AreAgreed frames policy f =
    IsAgreed frames bump f.alloc_bump buddy f.alloc_buddy
    × IsAgreed policy rr f.sched_rr cfs f.sched_cfs

pub main-done :
    (text : List ℕ) (f : Features) (env : List Setting)
    → main text f ≡ done env
    → (r : Reader) × (read_lines (lines text) first_reader ≡ done r)
      × AreAgreed r.frame_allocator r.sched f
      × (r.env ≡ env)
unfolding main
main-done text f env e =
    let (r, read, e1) = bind-done (read_lines (lines text) first_reader) _ env e in
    let (u, frames, e2) =
      bind-done (agree r.frame_allocator bump f.alloc_bump buddy f.alloc_buddy) _ env e1 in
    let (w, policy, e3) = bind-done (agree r.sched rr f.sched_rr cfs f.sched_cfs) _ env e2 in
    (r, read, (agree-IsAgreed _ _ _ _ _ frames, agree-IsAgreed _ _ _ _ _ policy), inj e3)
  where
    inj : {a b : List Setting} → done a ≡ done b → a ≡ b
    inj e = cc

-- The value of a key that stands last in the file.
abbrev pub last_of : List ℕ → List ℕ → List ℕ → Option (List ℕ)
last_of section key text = chosen section key none (entries_below [] (lines text))

-- The build goes on with some settings exactly when the file is read without a panic, with those
-- settings, and of each of the two choices this holds: the file has no entry for it, or the last entry
-- for it, in lower case, names the only selected feature of its pair. The frame allocator is the key
-- FRAME_ALLOCATOR of the section MEMORY, the policy the key DEFAULT of the section SCHED.
pub main_iff :
    (text : List ℕ) (f : Features) (env : List Setting)
    → (main text f ≡ done env) ↔ (
        (r : Reader) × (read_lines (lines text) first_reader ≡ done r)
        × (r.env ≡ env)
        × AreAgreed
            (last_of memory frame_allocator_key text)
            (last_of sched_section default_key text)
            f)
unfolding main
main_iff text f env = (
  λ e.
      let (r, read, agreed, same) = main-done text f env e in
      let c = read_lines-IsChosen (lines text) first_reader r read in
      (
        r,
        read,
        same,
        subst (λ x. AreAgreed x (last_of sched_section default_key text) f) c.frames
            (subst (λ x. AreAgreed r.frame_allocator x f) c.policy agreed),
      ),
  λ h.
      let (r, read, same, agreed) = h in
      let c = read_lines-IsChosen (lines text) first_reader r read in
      rw (read, main)
        (rw (c.frames, IsAgreed-agree _ _ _ _ _ agreed.0)
          (rw (c.policy, IsAgreed-agree _ _ _ _ _ agreed.1) (ap done same))),
)
