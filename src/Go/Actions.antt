-- ===== src/Go/Actions.antt =====
-- Calls with effects, as actions on a state; `if err != nil` as `handling` and `do` blocks.
use opsy_ami_operator.Prelude.{Bool, if◌then◌else◌}
use opsy_ami_operator.Go.Errors.{Error, Result, ok, err, panics}

-- A call: it returns a value or an error, and what was written before an error stays written.
abbrev pub Exec : Type 0 → Type 0 → Type 0
Exec S A = S → Result A × S

module _ {S A : Type 0} where
  unfoldable pub pure : A → Exec S A
  pure a s = (ok a, s)

  unfoldable pub raise : Error → Exec S A
  raise e s = (err e, s)

  unfoldable pub panic : Exec S A
  panic s = (panics, s)

  -- A value computed with no effect.
  unfoldable pub lift : Result A → Exec S A
  lift r s = (r, s)

  unfoldable pub gets : (S → A) → Exec S A
  gets f s = (ok (f s), s)

  -- The value of a call that cannot fail, written as a state transformer.
  unfoldable pub total : (S → A × S) → Exec S A
  total m s = let (a, s') = m s in (ok a, s')

unfoldable pub modify : {S : Type 0} → (S → S) → Exec S (Unit {0})
modify f s = (ok tt, f s)

unfoldable pub when : {S : Type 0} → Bool → Exec S (Unit {0}) → Exec S (Unit {0})
when b m = if b then m else pure tt

module _ {S A B : Type 0} where
  -- `if err != nil { return handler(err) }`, and the rest of the body otherwise.
  unfoldable pub handling : Exec S A → (Error → Exec S B) → (A → Exec S B) → Exec S B
  handling m handler rest s =
      let (r, s') = m s in
      elim r [ ok a ↦ rest a s' | err e ↦ handler e s' | panics ↦ (panics, s') ]

  infixl 5 ◌>>=◌ ◌>>◌
  -- `if err != nil { return err }`
  unfoldable pub ◌>>=◌ : Exec S A → (A → Exec S B) → Exec S B
  ◌>>=◌ m f s =
      let (r, s') = m s in elim r [ ok a ↦ f a s' | err e ↦ (err e, s') | panics ↦ (panics, s') ]

  abbrev pub ◌>>◌ : Exec S A → Exec S B → Exec S B
  m >> n = m >>= λ _. n

-- `return fmt.Errorf(… %w …, err)`: the error is changed and nothing else.
unfoldable pub map_error : {S A : Type 0} → (Error → Error) → Exec S A → Exec S A
map_error f m s =
    let (r, s') = m s in
    elim r [ ok a ↦ (ok a, s') | err e ↦ (err (f e), s') | panics ↦ (panics, s') ]

-- The error is dropped, as by `_ =` or by a log line.
unfoldable pub ignore : {S : Type 0} → Exec S (Unit {0}) → Exec S (Unit {0})
ignore m s =
    let (r, s') = m s in elim r [ ok _ ↦ (ok tt, s') | err _ ↦ (ok tt, s') | panics ↦ (panics, s') ]

-- An action on a part of the state.
unfoldable pub zoom : {S T A : Type 0} → (S → T) → (S → T → S) → Exec T A → Exec S A
zoom part with_part m s = let (r, t) = m (part s) in (r, with_part s t)
