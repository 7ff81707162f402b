-- ===== src/Go/Errors.antt =====
-- Go's `error` values.
use opsy_ami_operator.Prelude.{
  ◌≡◌, refl, ◌⊎◌, inl, inr, String, Bool, true, false, List, [], ◌∷◌, ◌==◌,
}
use opsy_ami_operator.Prelude.Texts.{concat}

-- What `k8serrors.IsNotFound`, `errors.IsConflict`, `errors.Is` and `errors.As` find in an error.
pub data Cause : Type 0 where
  not_found conflict deadline_exceeded canceled other : Cause
  api_code : String → Cause

pub record Error : Type 0 where
  pub message : String
  pub cause : Cause

-- How a call ends: with a value, with an error, or by a run-time panic (a nil pointer that is read
-- through, a slice that is cut out of range), which no caller handles.
pub data Result (A : Type 0) : Type 0 where
  ok : A → Result A
  err : Error → Result A
  panics : Result A

abbrev pub is_not_found : Error → Bool
is_not_found e = elim e.cause [ not_found ↦ true | _ ↦ false ]

abbrev pub is_conflict : Error → Bool
is_conflict e = elim e.cause [ conflict ↦ true | _ ↦ false ]

abbrev pub is_deadline_exceeded : Error → Bool
is_deadline_exceeded e = elim e.cause [ deadline_exceeded ↦ true | _ ↦ false ]

-- `err == context.Canceled`
abbrev pub is_canceled : Error → Bool
is_canceled e = elim e.cause [ canceled ↦ true | _ ↦ false ]

-- `errors.As(err, &apiErr)` with this error code.
abbrev pub has_code : String → Cause → Bool
has_code code (Cause.api_code c) = c == code
has_code code _ = false

-- `fmt.Errorf` with no `%w`: only the text is kept.
abbrev pub errorf : List String → Error
errorf pieces = record { message = concat pieces; cause = other }

-- `fmt.Errorf("…: %w", err)`: `errors.As` still finds the cause.
abbrev pub wrap : String → Error → Error
wrap prefix e = record e { message = concat (prefix ∷ ": " ∷ e.message ∷ []) }

-- The rest of a pure body, unless a step failed.
abbrev pub and_then : {A B : Type 0} → Result A → (A → Result B) → Result B
and_then (ok a) f = f a
and_then (err e) f = err e
and_then panics f = panics

-- A chain that succeeds had a first step that succeeded.
pub and_then-eq-ok :
    {A B : Type 0} (r : Result A) (f : A → Result B) {b : B}
    → and_then r f ≡ ok b
    → (a : A) × (r ≡ ok a) × (f a ≡ ok b)
and_then-eq-ok (ok a) f h = (a, refl, h)
and_then-eq-ok (err e) f h = cc
and_then-eq-ok panics f h = cc

pub Result-cases :
    {A : Type 0} (r : Result A)
    → ((a : A) × (r ≡ ok a)) ⊎ ((e : Error) × (r ≡ err e)) ⊎ (r ≡ panics)
Result-cases (ok a) = inl (a, refl)
Result-cases (err e) = inr (inl (e, refl))
Result-cases panics = inr (inr refl)
