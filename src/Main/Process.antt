-- ===== src/Main/Process.antt =====
-- cmd/main.go: a process that may end early.
use opsy_ami_operator.Prelude.{ℕ, ◌≡◌, refl, arith}
use opsy_ami_operator.Go.{Exec, Error, Result, ok, err, panics}

-- The process goes on with a value, ends by os.Exit, or ends by a panic.
pub data Step (A : Type 0) : Type 0 where
  goes : A → Step A
  exits : ℕ → Step A
  crashes : Step A

abbrev pub Process : Type 0 → Type 0 → Type 0
Process W A = W → Step A × W

module _ {W A : Type 0} where
  unfoldable pub go_on : A → Process W A
  go_on a w = (goes a, w)

  -- `if err != nil { …; os.Exit(code) }`, with what is done before the end.
  unfoldable pub or_exit : ℕ → (Error → W → W) → Exec W A → Process W A
  or_exit code report m w =
      let (r, t) = m w in
      elim r [ ok a ↦ (goes a, t) | err e ↦ (exits code, report e t) | panics ↦ (crashes, t) ]

  -- `if err != nil { panic(err) }`
  unfoldable pub or_panic : Exec W A → Process W A
  or_panic m w =
      let (r, t) = m w in
      elim r [ ok a ↦ (goes a, t) | err e ↦ (crashes, t) | panics ↦ (crashes, t) ]

  pub or_exit-eq-goes :
      (code : ℕ) (report : Error → W → W) (m : Exec W A) (w t : W) (a : A)
      → or_exit code report m w ≡ (goes a, t)
      → m w ≡ (ok a, t)
  unfolding or_exit
  or_exit-eq-goes code report m w t a = go (m w) refl
    where
      go :
          (x : Result A × W)
          → m w ≡ x
          → or_exit code report (λ _. x) w ≡ (goes a, t)
          → m w ≡ (ok a, t)
      go (ok b, u) e h = ground arith
      go (err e', u) e h = ground arith
      go (panics, u) e h = ground arith

  pub or_panic-eq-goes :
      (m : Exec W A) (w t : W) (a : A) → or_panic m w ≡ (goes a, t) → m w ≡ (ok a, t)
  unfolding or_panic
  or_panic-eq-goes m w t a = go (m w) refl
    where
      go : (x : Result A × W) → m w ≡ x → or_panic (λ _. x) w ≡ (goes a, t) → m w ≡ (ok a, t)
      go (ok b, u) e h = ground arith
      go (err e', u) e h = ground arith
      go (panics, u) e h = ground arith

module _ {W A B : Type 0} where
  infixl 5 ◌>>=◌ ◌>>◌
  unfoldable pub ◌>>=◌ : Process W A → (A → Process W B) → Process W B
  ◌>>=◌ m f w =
      let (r, t) = m w in
      elim r [ goes a ↦ f a t | exits code ↦ (exits code, t) | crashes ↦ (crashes, t) ]

  abbrev pub ◌>>◌ : Process W A → Process W B → Process W B
  m >> n = m >>= λ _. n

  -- A process that went through both parts, with what it was between them.
  pub bind-eq-goes :
      (m : Process W A) (f : A → Process W B) (w u : W) (b : B)
      → (m >>= f) w ≡ (goes b, u)
      → (a : A) × (t : W) × (m w ≡ (goes a, t)) × (f a t ≡ (goes b, u))
  unfolding ◌>>=◌
  bind-eq-goes m f w u b = go (m w) refl
    where
      go :
          (x : Step A × W)
          → m w ≡ x
          → ((λ _. x) >>= f) w ≡ (goes b, u)
          → (a : A) × (t : W) × (m w ≡ (goes a, t)) × (f a t ≡ (goes b, u))
      go (goes a, t) e h = (a, t, e, h)
      go (exits code, t) e h = ground arith
      go (crashes, t) e h = ground arith
