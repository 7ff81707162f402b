-- ===== src/Status.antt =====
-- pkg/status/status.go: writing the status of an object, with a retry on conflict.
use opsy_ami_operator.Prelude.{String, Bool, Option, if◌then◌else◌}
use opsy_ami_operator.Go.{Exec, Error, raise, handling, pure, wrap, is_conflict}
use opsy_ami_operator.Env.{StatusClient}

-- status.Result; a nil error is `none`.
pub record StatusResult : Type 0 where
  pub success : Bool
  pub message : String
  pub name : String
  pub error : Option Error

-- What the code needs of an object: the copy of the field `Status`, which goes by reflection.
pub record HasStatus (O : Type 0) : Type 0 where
  -- `latest` with the status of `obj`
  pub copy_status : O → O → O

-- status.Status, with a client of type `K`; `status.New`.
pub record Status (K : Type 0) : Type 0 where
  pub client : K

unfoldable pub new : {K : Type 0} → K → Status K
new client = record { client = client }

module _ {O W : Type 0} (h : HasStatus O) (c : StatusClient O W) where
  -- The function that `RetryOnConflict` is given.
  unfoldable pub update_once : O → Exec W (Unit {0})
  update_once obj =
      handling (c.get_latest obj) (λ e. raise (wrap "failed to get latest version of object" e))
        λ latest.
          handling (c.update_status (h.copy_status latest obj))
            (λ e.
              if is_conflict e then raise e else raise (wrap "failed to update object status" e))
            pure

  unfoldable pub update : O → Exec W (Unit {0})
  update obj = c.retry_on_conflict (update_once obj)
