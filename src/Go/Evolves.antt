-- ===== src/Go/Evolves.antt =====
-- A relation that an action keeps between the state before it and the state after it, whether it
-- succeeds or fails: one rule for each way to build an action.
use opsy_ami_operator.Prelude.{Bool, true, false, if◌then◌else◌}
use opsy_ami_operator.Go.Errors.{Error, Result, ok, err, panics}
use opsy_ami_operator.Go.Actions.{
  ◌>>=◌, Exec, pure, raise, panic, lift, gets, when, handling, map_error,
}

-- A reflexive and transitive relation on states.
pub record Order {S : Type 0} (R : S → S → Type 0) : Type 0 where
  pub same : (s : S) → R s s
  pub both : (s t u : S) → R s t → R t u → R s u

pub record Evolves {S A : Type 0} (R : S → S → Type 0) (m : Exec S A) : Type 0 where
  pub at : (s : S) → R s (m s).1

module _ {S : Type 0} {R : S → S → Type 0} (o : Order R) where
  pub Evolves-pure : {A : Type 0} (a : A) → Evolves R (pure a)
  unfolding pure
  Evolves-pure a = record { at = λ s. o.same s }

  pub Evolves-raise : {A : Type 0} (e : Error) → Evolves R (raise {A = A} e)
  unfolding raise
  Evolves-raise e = record { at = λ s. o.same s }

  pub Evolves-lift : {A : Type 0} (r : Result A) → Evolves R (lift r)
  unfolding lift
  Evolves-lift r = record { at = λ s. o.same s }

  pub Evolves-panic : {A : Type 0} → Evolves R (panic {A = A})
  unfolding panic
  Evolves-panic = record { at = λ s. o.same s }

  pub Evolves-gets : {A : Type 0} (f : S → A) → Evolves R (gets f)
  unfolding gets
  Evolves-gets f = record { at = λ s. o.same s }

  pub Evolves-when : (b : Bool) (m : Exec S (Unit {0})) → Evolves R m → Evolves R (when b m)
  unfolding when pure
  Evolves-when true m k = k
  Evolves-when false m k = Evolves-pure tt

module _ {S : Type 0} {R : S → S → Type 0} where
  pub Evolves-if :
      {A : Type 0} (b : Bool) (m n : Exec S A)
      → Evolves R m
      → Evolves R n
      → Evolves R (if b then m else n)
  Evolves-if true m n km kn = km
  Evolves-if false m n km kn = kn

module _ {S : Type 0} {R : S → S → Type 0} (o : Order R) {A B : Type 0} where
  branch :
      (handler : Error → Exec S B) (rest : A → Exec S B)
      → ((e : Error) → Evolves R (handler e))
      → ((a : A) → Evolves R (rest a))
      → (s t : S) (r : Result A) → R s t
      → R s (handling {S = S} (λ _. (r, t)) handler rest s).1
  unfolding handling
  branch handler rest kh kr s t (ok a) p = o.both s t _ p ((kr a).at t)
  branch handler rest kh kr s t (err e) p = o.both s t _ p ((kh e).at t)
  branch handler rest kh kr s t panics p = p

  pub Evolves-handling :
      (m : Exec S A) (handler : Error → Exec S B) (rest : A → Exec S B)
      → Evolves R m
      → ((e : Error) → Evolves R (handler e))
      → ((a : A) → Evolves R (rest a))
      → Evolves R (handling m handler rest)
  unfolding handling
  Evolves-handling m handler rest km kh kr = record {
    at = λ s. let (r, t) = m s in branch handler rest kh kr s t r (km.at s);
  }

  pub Evolves-bind :
      (m : Exec S A) (rest : A → Exec S B)
      → Evolves R m
      → ((a : A) → Evolves R (rest a))
      → Evolves R (m >>= rest)
  unfolding ◌>>=◌ handling raise
  Evolves-bind m rest km kr = Evolves-handling m (λ e. raise e) rest km (λ e. Evolves-raise o e) kr

module _ {S A : Type 0} (R : S → S → Type 0) where
  mapped :
      (f : Error → Error) (s t : S) (r : Result A) → R s t → R s (map_error f (λ _. (r, t)) s).1
  unfolding map_error
  mapped f s t (ok a) p = p
  mapped f s t (err e) p = p
  mapped f s t panics p = p

module _ {S A : Type 0} {R : S → S → Type 0} where
  pub Evolves-map_error :
      (f : Error → Error) (m : Exec S A) → Evolves R m → Evolves R (map_error f m)
  unfolding map_error
  Evolves-map_error f m k = record { at = λ s. let (r, t) = m s in mapped R f s t r (k.at s) }
