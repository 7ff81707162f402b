-- ===== src/Refresher/Deleted.antt =====
-- amirefresher_controller.go: a refresher that is marked for deletion.
use opsy_ami_operator.Prelude.{
  is_empty, String, List, ◌∷◌, ◌≡◌, refl, ap, ◌∙◌, Option, some, if◌then◌else◌,
}
use opsy_ami_operator.Go.{Exec, ok, ◌>>=◌, ◌>>◌, handling, pure, raise, is_not_found}
use opsy_ami_operator.Go.Outcomes.{bind_after}
use opsy_ami_operator.Controller.State.{ReconcileResult, done}
use opsy_ami_operator.Api.{AmiRefresher}
use opsy_ami_operator.Api.Conditions.{Time, OpsyConditionType, ConditionStatus, OpsyCondition}
use opsy_ami_operator.Env.{Env}
use opsy_ami_operator.Finalizer.{handle_finalizer}
use opsy_ami_operator.Finalizer.Settled.{IsSettled, handle_finalizer-IsSettled}
use opsy_ami_operator.Refresher.{
  HeldAr, is_nil, read_ar, write_ar, outside_ar, refresher_client, set_status_condition, get_again,
  refresh, finalize, reconcile_refresher,
}

module _ {W : Type 0} (env : Env W) where
  -- The condition `InProgress` with the reason `Finalizing` is set.
  abbrev pub set_finalizing : Exec (HeldAr W) (Unit {0})
  set_finalizing =
      set_status_condition env OpsyConditionType.in_progress ConditionStatus.condition_true
        "Finalizing"
        "Finalizer operations for custom resource %s name were successfully accomplished"

  get_again_found :
      (namespace name : String) (ar ar' : AmiRefresher) (w w' : W)
      → env.get_ami_refresher namespace name w ≡ (ok ar', w')
      → get_again env namespace name (refresh env) (ar, w) ≡ refresh env (ar', w')
  unfolding get_again handling outside_ar write_ar ◌>>=◌
  get_again_found namespace name ar ar' w w' h =
      coe 1 0
        (i.
          handling (outside_ar (λ _. h i)) (λ e. if is_not_found e then pure done else raise e)
            (λ x. write_ar (λ _. x) >> refresh env) (ar, w)
          ≡ refresh env (ar', w'))
        refl

  -- What `finalize` does from the reading of the refresher on.
  abbrev finalize_read : String → String → Exec (HeldAr W) ReconcileResult
  finalize_read namespace name = read_ar >>= λ ar.
      if is_nil ar.meta.deletion_timestamp
      then refresh env
      else (set_finalizing
          >> (handle_finalizer env (refresher_client env)
              >> get_again env namespace name (refresh env)))

  marked :
      (namespace name : String) (time : Time) (ar ar' : AmiRefresher) (w w' : W)
      → ar.meta.deletion_timestamp ≡ some time
      → set_finalizing (ar, w) ≡ (ok tt, (ar', w'))
      → finalize_read namespace name (ar, w)
        ≡ (handle_finalizer env (refresher_client env)
              >> get_again env namespace name (refresh env))
            (ar', w')
  unfolding read_ar ◌>>=◌
  marked namespace name time ar ar' w w' deleted set =
      ap
        (λ (x : Option Time).
          (if is_nil x
              then refresh env
              else (set_finalizing
                  >> (handle_finalizer env (refresher_client env)
                      >> get_again env namespace name (refresh env))))
            (ar, w))
        deleted
      ∙ bind_after set_finalizing
          (λ _.
            handle_finalizer env (refresher_client env)
            >> get_again env namespace name (refresh env))
          (ar, w) (ar', w') tt set

  has_conditions :
      (namespace name : String) (c : OpsyCondition) (l : List OpsyCondition) (ar : AmiRefresher)
      (w : W)
      → ar.status.conditions ≡ c ∷ l
      → reconcile_refresher env namespace name (ar, w) ≡ finalize env namespace name (ar, w)
  unfolding reconcile_refresher read_ar ◌>>=◌
  has_conditions namespace name c l ar w listed =
      ap
        (λ (x : List OpsyCondition).
          (if is_empty x
              then (set_status_condition env OpsyConditionType.in_progress
                    ConditionStatus.condition_unknown "Reconciling" "Starting reconciliation"
                  >> get_again env namespace name (finalize env namespace name))
              else finalize env namespace name)
            (ar, w))
        listed

  -- A refresher that is marked for deletion and kept, with its conditions, by another finalizer than
  -- the operator's is refreshed like any other once it is read again: `Reconcile` does not stop there.
  pub reconcile_refresher_deleted :
      (namespace name : String) (c : OpsyCondition) (l : List OpsyCondition) (time : Time)
      (ar ar₁ ar₂ : AmiRefresher) (w w₁ w₂ : W)
      → ar.status.conditions ≡ c ∷ l
      → ar.meta.deletion_timestamp ≡ some time
      → IsSettled env (refresher_client env) ar
      → set_finalizing (ar, w) ≡ (ok tt, (ar₁, w₁))
      → IsSettled env (refresher_client env) ar₁
      → env.get_ami_refresher namespace name w₁ ≡ (ok ar₂, w₂)
      → reconcile_refresher env namespace name (ar, w) ≡ refresh env (ar₂, w₂)
  unfolding finalize
  reconcile_refresher_deleted namespace name c l time ar ar₁ ar₂ w w₁ w₂ listed deleted settled set
        settled₁ found =
      let client = refresher_client env in
      has_conditions namespace name c l ar w listed
      ∙ bind_after (handle_finalizer env client) _ (ar, w) (ar, w) tt
          (handle_finalizer-IsSettled env client ar w settled)
      ∙ marked namespace name time ar ar₁ w w₁ deleted set
      ∙ bind_after (handle_finalizer env client) _ (ar₁, w₁) (ar₁, w₁) tt
          (handle_finalizer-IsSettled env client ar₁ w₁ settled₁)
      ∙ get_again_found namespace name ar₁ ar₂ w₁ w₂ found
