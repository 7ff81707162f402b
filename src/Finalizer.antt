-- ===== src/Finalizer.antt =====
-- pkg/finalizer/finalizer.go: the operator's finalizer on an object.
pub mod Settled
use opsy_ami_operator.Prelude.{
  zero, String, Bool, true, false, not, Option, none, some, List, if◌then◌else◌,
}
use opsy_ami_operator.Prelude.Int.{pos}
use opsy_ami_operator.Go.{Exec, Error, Result, ok, err, panics, pure, when}
use opsy_ami_operator.Api.{ObjectMeta}
use opsy_ami_operator.Api.Conditions.{Time}
use opsy_ami_operator.Env.{Env}

-- config.go
abbrev pub finalizer_name : String
finalizer_name = "ami.opsy.dev/finalizer"

-- client.Object with the client's Update, whose reply becomes the object.
pub record ObjectClient (O W : Type 0) : Type 0 where
  pub get_meta : O → ObjectMeta
  pub set_meta : ObjectMeta → O → O
  pub update_object : O → Exec W O

-- `(*metav1.Time).IsZero()`
abbrev pub is_zero : Option Time → Bool
is_zero none = true
is_zero (some (pos zero)) = true
is_zero (some _) = false

module _ {O W : Type 0} (env : Env W) (c : ObjectClient O W) where
  -- `obj` with another list of finalizers, then `r.Update(ctx, obj)`.
  unfoldable pub update_with : List String → Exec (O × W) (Unit {0})
  update_with finalizers (obj, w) =
      let obj' = c.set_meta (record (c.get_meta obj) { finalizers = finalizers }) obj in
      let (r, w') = c.update_object obj' w in
      elim r [
        | ok replied ↦ (ok tt, (replied, w'))
        | err e ↦ (err e, (obj', w'))
        | panics ↦ (panics, (obj', w'))
      ]

  abbrev pub has_finalizer : O → Bool
  has_finalizer obj = env.contains_finalizer (c.get_meta obj).finalizers finalizer_name

  -- `HandleFinalizer`
  unfoldable pub handle_finalizer : Exec (O × W) (Unit {0})
  handle_finalizer (obj, w) =
      let names = (c.get_meta obj).finalizers in
      if is_zero (c.get_meta obj).deletion_timestamp
      then when (not (has_finalizer obj)) (update_with (env.add_finalizer names finalizer_name))
          (obj, w)
      else when (has_finalizer obj) (update_with (env.remove_finalizer names finalizer_name))
          (obj, w)
