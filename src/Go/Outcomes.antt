-- ===== src/Go/Outcomes.antt =====
-- What a successful call says of the calls that it is made of.
use opsy_ami_operator.Prelude.{◌≡◌, refl, ◌∙◌, ◌⊎◌, inl, inr, arith}
use opsy_ami_operator.Go.Errors.{Error, Result, ok, err, panics}
use opsy_ami_operator.Go.Actions.{Exec, ◌>>=◌, handling, map_error, lift}

module _ {S A B : Type 0} where
  pub bind_ok :
      (m : Exec S A) (f : A → Exec S B) (s : S) (b : B)
      → ((m >>= f) s).0 ≡ ok b
      → (a : A) × ((m s).0 ≡ ok a) × ((f a (m s).1).0 ≡ ok b)
  unfolding ◌>>=◌
  bind_ok m f s b =
      elim (m s).0
        as (λ r.
          (((λ _. (r, (m s).1)) >>= f) s).0 ≡ ok b
          → (a : A) × (r ≡ ok a) × ((f a (m s).1).0 ≡ ok b)) [
            | ok a ↦ λ h. (a, refl, h)
            | err e ↦ λ h. ground arith
            | panics ↦ λ h. ground arith
          ]

  pub bind_after :
      (m : Exec S A) (f : A → Exec S B) (s t : S) (a : A) → m s ≡ (ok a, t) → (m >>= f) s ≡ f a t
  unfolding ◌>>=◌
  bind_after m f s t a h = coe 1 0 (i. ((λ _. h i) >>= f) s ≡ f a t) refl

  pub handling_failed :
      (m : Exec S A) (handler : Error → Exec S B) (f : A → Exec S B) (s t : S) (e : Error)
      → m s ≡ (err e, t)
      → handling m handler f s ≡ handler e t
  unfolding handling
  handling_failed m handler f s t e h =
      coe 1 0 (i. handling (λ _. h i) handler f s ≡ handler e t) refl

  pub handling_after :
      (m : Exec S A) (handler : Error → Exec S B) (f : A → Exec S B) (s t : S) (a : A)
      → m s ≡ (ok a, t)
      → handling m handler f s ≡ f a t
  unfolding handling
  handling_after m handler f s t a h = coe 1 0 (i. handling (λ _. h i) handler f s ≡ f a t) refl

  -- A chain that succeeds, with the state between its two parts.
  pub bind-eq-ok :
      (m : Exec S A) (f : A → Exec S B) (s u : S) (b : B)
      → (m >>= f) s ≡ (ok b, u)
      → (a : A) × (t : S) × (m s ≡ (ok a, t)) × (f a t ≡ (ok b, u))
  unfolding ◌>>=◌
  bind-eq-ok m f s u b = go (m s) refl
    where
      go :
          (x : Result A × S)
          → m s ≡ x
          → ((λ _. x) >>= f) s ≡ (ok b, u)
          → (a : A) × (t : S) × (m s ≡ (ok a, t)) × (f a t ≡ (ok b, u))
      go (ok a, t) e h = (a, t, e, h)
      go (err e', t) e h = ground arith
      go (panics, t) e h = ground arith

module _ {S A : Type 0} where
  pub map_error_after :
      (f : Error → Error) (m : Exec S A) (s t : S) (a : A)
      → m s ≡ (ok a, t)
      → map_error f m s ≡ (ok a, t)
  unfolding map_error
  map_error_after f m s t a h = λ i. map_error f (λ _. h i) s

  pub map_error-eq-ok :
      (f : Error → Error) (m : Exec S A) (s t : S) (a : A)
      → map_error f m s ≡ (ok a, t)
      → m s ≡ (ok a, t)
  unfolding map_error
  map_error-eq-ok f m s t a h = go (m s) refl h
    where
      go : (x : Result A × S) → m s ≡ x → map_error f (λ _. x) s ≡ (ok a, t) → m s ≡ (ok a, t)
      go (ok a', t') e h = e ∙ h
      go (err e', t') e h = ground arith
      go (panics, t') e h = ground arith

module _ {S A B : Type 0} where
  -- The same, where the first part is a value that is computed with no effect.
  pub bind_lift-eq-ok :
      (r : Result A) (f : A → Exec S B) (s u : S) (b : B)
      → (lift r >>= f) s ≡ (ok b, u)
      → (a : A) × (r ≡ ok a) × (f a s ≡ (ok b, u))
  unfolding ◌>>=◌ lift
  bind_lift-eq-ok (ok a) f s u b h = (a, refl, h)
  bind_lift-eq-ok (err e) f s u b h = ground arith
  bind_lift-eq-ok panics f s u b h = ground arith

-- A call whose error is handled, and that ends well after all.
pub handling-eq-ok :
    {S A B : Type 0} (m : Exec S A) (handler : Error → Exec S B) (rest : A → Exec S B) (s u : S)
    (b : B)
    → handling m handler rest s ≡ (ok b, u)
    → ((a : A) × (t : S) × (m s ≡ (ok a, t)) × (rest a t ≡ (ok b, u)))
      ⊎ ((e : Error) × (t : S) × (m s ≡ (err e, t)) × (handler e t ≡ (ok b, u)))
unfolding handling
handling-eq-ok {S} {A} {B} m handler rest s u b h = go (m s) refl h
  where
    go :
        (x : Result A × S)
        → m s ≡ x
        → handling (λ _. x) handler rest s ≡ (ok b, u)
        → ((a : A) × (t : S) × (m s ≡ (ok a, t)) × (rest a t ≡ (ok b, u)))
          ⊎ ((e : Error) × (t : S) × (m s ≡ (err e, t)) × (handler e t ≡ (ok b, u)))
    go (ok a, t) e k = inl (a, t, e, k)
    go (err e', t) e k = inr (e', t, e, k)
    go (panics, t) e k = ground arith
