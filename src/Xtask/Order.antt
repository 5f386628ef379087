-- ===== src/Xtask/Order.antt =====
-- In which order xtask does what it does, and on what condition.
use rusty_core.Prelude.{
  ℕ, sym, subst, ◌≡◌, ◌⊎◌, inl, inr, refl, ap, ◌∙◌, Bool, true, Option, some, Option-cases,
  Bool-cases, List, [], ◌∷◌,
}
use rusty_core.Prelude.Vecs.{push}
use rusty_core.Config.Text.{codes, same_text}
use rusty_core.Xtask.Profile.{IsProfile, released, profiled}
use rusty_core.Xtask.{
  Run, proceed, ◌>>◌, ◌>>=◌, done, Command, Action, Ended, kernel_elf_path, image_path,
  build_command, qemu_command, run, build_kernel, make_image, build_image, run_qemu, asks_release,
  main,
}

-- What a chain does when its first step has ended.
module _ {A B : Type 0} (m : Run A) (f : A → Run B) (log : List Action) {log2 : List Action} where
  bind-value : {a : A} → m log ≡ (Ended.value a, log2) → (m >>= f) log ≡ f a log2
  bind-value e = ap (proceed f) e

  bind-error : m log ≡ (Ended.error, log2) → (m >>= f) log ≡ (Ended.error, log2)
  bind-error e = ap (proceed f) e

  bind-panicked : m log ≡ (Ended.panicked, log2) → (m >>= f) log ≡ (Ended.panicked, log2)
  bind-panicked e = ap (proceed f) e

module _ (config : List ℕ) (status : Command → Option Bool)
    (create_bios_image : List ℕ → List ℕ → Bool) where
  abbrev built : Bool → Action
  built release = Action.runs (build_command release)

  abbrev imaged : Bool → Action
  imaged release = Action.makes_image (kernel_elf_path release) (image_path release)

  abbrev launched : Bool → Action
  launched release = Action.runs (qemu_command config (image_path release))

  -- The kernel has been built with success.
  abbrev IsBuilt : Bool → Type 0
  IsBuilt release = status (build_command release) ≡ some true

  abbrev IsImaged : Bool → Type 0
  IsImaged release = create_bios_image (kernel_elf_path release) (image_path release) ≡ true

  -- One of the four beginnings of: build the kernel, make its image, start QEMU on the image.
  pub IsHistory : Bool → List Action → Type 0
  IsHistory release log =
      (log ≡ [])
      ⊎ ((log ≡ built release ∷ [])
          ⊎ (((log ≡ built release ∷ imaged release ∷ []) × IsBuilt release × IsImaged release)
              ⊎ ((log ≡ built release ∷ imaged release ∷ launched release ∷ [])
                  × IsBuilt release
                  × IsImaged release)))

  module _ (release : Bool) where
    -- How the build of the kernel ends.
    build_kernel-cases :
        (build_kernel config status create_bios_image release [] ≡ (Ended.panicked, []))
        ⊎ ((build_kernel config status create_bios_image release []
              ≡ (Ended.panicked, built release ∷ []))
            ⊎ ((build_kernel config status create_bios_image release []
                  ≡ (Ended.value tt, built release ∷ []))
                × IsBuilt release))
    unfolding build_kernel run push
    build_kernel-cases = elim (Option-cases (status (build_command release))) [
      | inl e ↦ inl (rw (e, build_kernel, run) refl)
      | inr (ok, e) ↦ elim (Bool-cases ok) [
        | inl t ↦ inr (inr (rw (e, t, build_kernel, run) refl, e ∙ ap some t))
        | inr f ↦ inr (inl (rw (e, f, build_kernel, run) refl))
      ]
    ]

    build_image-cases :
        (build_image config status create_bios_image release [] ≡ (Ended.panicked, []))
        ⊎ ((build_image config status create_bios_image release []
              ≡ (Ended.panicked, built release ∷ []))
            ⊎ ((build_image config status create_bios_image release []
                  ≡ (Ended.error, built release ∷ []))
                ⊎ ((build_image config status create_bios_image release []
                      ≡ (Ended.value (image_path release), built release ∷ imaged release ∷ []))
                    × IsBuilt release
                    × IsImaged release)))
    unfolding build_image make_image push
    build_image-cases =
        let kernel = build_kernel config status create_bios_image release in
        elim build_kernel-cases [
          | inl e ↦ inl (bind-panicked kernel (λ _. image_rest) [] e)
          | inr (inl e) ↦ inr (inl (bind-panicked kernel (λ _. image_rest) [] e))
          | inr (inr (e, b)) ↦
              elim (Bool-cases (create_bios_image (kernel_elf_path release) (image_path release))) [
                | inl t ↦ inr (
                    inr (
                      inr
                        (bind-value kernel (λ _. image_rest) [] e ∙ rw (t, make_image) refl, b, t)))
                | inr f ↦
                    inr (
                      inr
                        (inl (bind-value kernel (λ _. image_rest) [] e ∙ rw (f, make_image) refl)))
              ]
        ]
      where
        image_rest : Run (List ℕ)
        image_rest =
            make_image config status create_bios_image (kernel_elf_path release)
              (image_path release)
            >> done (image_path release)

    -- The run keeps the order, and a success means that the kernel has been built.
    abbrev pub IsInOrder : Ended (Unit {0}) × List Action → Type 0
    IsInOrder r = IsHistory release r.1 × (r.0 ≡ Ended.value tt → IsBuilt release)

    stopped :
        (e : Ended (Unit {0})) {r : Ended (Unit {0}) × List Action} (log : List Action)
        → r ≡ (e, log)
        → IsHistory release log
        → (e ≡ Ended.value tt → IsBuilt release)
        → IsInOrder r
    stopped e log same h s = subst IsInOrder (sym same) (h, s)

    build_kernel-IsInOrder : IsInOrder (build_kernel config status create_bios_image release [])
    unfolding IsHistory
    build_kernel-IsInOrder = elim build_kernel-cases [
      | inl e ↦ stopped Ended.panicked [] e (inl refl) (λ q. cc)
      | inr (inl e) ↦ stopped Ended.panicked _ e (inr (inl refl)) (λ q. cc)
      | inr (inr (e, b)) ↦ stopped (Ended.value tt) _ e (inr (inl refl)) (λ q. b)
    ]

    module _ (then_ : List ℕ → Run (Unit {0})) where
      abbrev image_then : Run (Unit {0})
      image_then = build_image config status create_bios_image release >>= then_

      -- The order up to the image, and behind it that of what comes next.
      image_then-IsInOrder :
          (IsBuilt release
            → IsImaged release
            → IsInOrder (then_ (image_path release) (built release ∷ imaged release ∷ [])))
          → IsInOrder (image_then [])
      unfolding IsHistory
      image_then-IsInOrder next =
          let image = build_image config status create_bios_image release in
          elim build_image-cases [
            | inl e ↦
                stopped Ended.panicked [] (bind-panicked image then_ [] e) (inl refl) (λ q. cc)
            | inr (inl e) ↦
                stopped Ended.panicked _ (bind-panicked image then_ [] e) (inr (inl refl)) (λ q. cc)
            | inr (inr (inl e)) ↦
                stopped Ended.error _ (bind-error image then_ [] e) (inr (inl refl)) (λ q. cc)
            | inr (inr (inr (e, b, i))) ↦
                subst IsInOrder (sym (bind-value image then_ [] e)) (next b i)
          ]

    run_qemu-IsInOrder : IsInOrder (run_qemu config status create_bios_image release [])
    unfolding IsHistory run_qemu run push
    run_qemu-IsInOrder =
        image_then-IsInOrder
          (λ image.
            run config status create_bios_image (qemu_command config image) >>= λ ok. done tt)
          (λ b i. elim (Option-cases (status (qemu_command config (image_path release)))) [
            | inl n ↦
                stopped Ended.panicked _ (rw (n, run) refl) (inr (inr (inl (refl, b, i)))) (λ q. cc)
            | inr (ok, l) ↦
                stopped (Ended.value tt) _ (rw (l, run) refl) (inr (inr (inr (refl, b, i))))
                  (λ q. b)
          ])

  ordered :
      (args : List (List ℕ))
      → IsInOrder
          (released config status create_bios_image args)
          (main config status create_bios_image args [])
  unfolding main IsHistory
  ordered [] = (inl refl, λ q. cc)
  ordered (sub ∷ args) =
      let release = asks_release config status create_bios_image args in
      elim (Bool-cases (same_text sub (codes "build"))) [
        | inl a ↦ rw (a, main) (build_kernel-IsInOrder release)
        | inr a ↦ elim (Bool-cases (same_text sub (codes "image"))) [
          | inl b ↦
              rw (a, b, main)
                (image_then-IsInOrder release (λ image. done tt)
                  (λ x y. (inr (inr (inl (refl, x, y))), λ q. x)))
          | inr b ↦ elim (Bool-cases (same_text sub (codes "run-qemu"))) [
            | inl c ↦ rw (a, b, c, main) (run_qemu-IsInOrder release)
            | inr c ↦ rw (a, b, c, main) (inl refl, λ q. cc)
          ]
        ]
      ]

  -- Whatever the arguments and whatever fails, all that xtask does is a beginning of: build the kernel, make the image of
  -- that kernel, start QEMU on that image; the image only after a successful build, QEMU only after the image. Only a
  -- successful build lets it end with success. All is for one profile, release when the flag stands behind the command and
  -- debug otherwise: cargo is called for that profile, and the kernel and the image lie in its directory.
  pub main-IsInOrder :
      (args : List (List ℕ))
      → (release : Bool) × IsProfile config status create_bios_image args release
        × IsInOrder release (main config status create_bios_image args [])
  main-IsInOrder args = (
    released config status create_bios_image args,
    profiled config status create_bios_image args,
    ordered args,
  )
