-- ===== src/Refresher.antt =====
-- internal/controller/ami/amirefresher_controller.go: `Reconcile` of a refresher, which gives the
-- node groups of a cluster an image.
pub mod Groups
pub mod Deleted
use opsy_ami_operator.Prelude.{
  is_empty, String, Bool, true, false, Option, none, some, List, [], ◌∷◌, not, if◌then◌else◌,
}
use opsy_ami_operator.Prelude.Int.{pos}
use opsy_ami_operator.Go.{
  Exec, Error, Result, ok, err, panics, pure, raise, lift, when, handling, ◌>>=◌, ◌>>◌,
  is_not_found,
}
use opsy_ami_operator.Api.{AmiRefresher}
use opsy_ami_operator.Api.Conditions.{
  or_zero, Time, Duration, OpsyCondition, OpsyConditionType, ConditionStatus,
}
use opsy_ami_operator.Env.{Env}
use opsy_ami_operator.Status.{StatusResult}
use opsy_ami_operator.Cond
use opsy_ami_operator.Cond.{ConditionSetter}
use opsy_ami_operator.Ami
use opsy_ami_operator.Ami.{ManagerAmi, ami_checks, ami_refresh_check}
use opsy_ami_operator.Eks
use opsy_ami_operator.Eks.{ManagerRefresh, UpdateConfig, list_node_groups, trim_node_groups}
use opsy_ami_operator.Eks.Update.{update_node_group_ami}
use opsy_ami_operator.Finalizer.{ObjectClient, handle_finalizer}
use opsy_ami_operator.Controller.State.{ReconcileResult, done, requeue_in}

abbrev pub ami_refresher_conditions : ConditionSetter AmiRefresher
ami_refresher_conditions = record {
  has_status = record { copy_status = λ latest ar. record latest { status = ar.status } };
  get_conditions = λ ar. ar.status.conditions;
  set_conditions =
      λ conditions ar. record ar { status = record ar.status { conditions = conditions } };
}

-- The refresher in memory beside the world.
abbrev pub HeldAr : Type 0 → Type 0
HeldAr W = AmiRefresher × W

-- `updateConfig`; the refresher's own configuration is not read.
abbrev pub update_config : UpdateConfig
update_config = record {
  enable = false;
  force = false;
  wait_for_completion = false;
  max_unavailable = none;
  max_unavailable_percentage = none;
}

abbrev is_nil : Option Time → Bool
is_nil none = true
is_nil (some _) = false

module _ {W : Type 0} where
  unfoldable pub outside_ar : {A : Type 0} → Exec W A → Exec (HeldAr W) A
  outside_ar m (ar, w) = let (r, w') = m w in (r, (ar, w'))

  unfoldable pub read_ar : Exec (HeldAr W) AmiRefresher
  read_ar (ar, w) = (ok ar, (ar, w))

  unfoldable pub write_ar : (AmiRefresher → AmiRefresher) → Exec (HeldAr W) (Unit {0})
  write_ar f (ar, w) = (ok tt, (f ar, w))

module _ {W : Type 0} (env : Env W) where
  abbrev pub refresher_client : ObjectClient AmiRefresher W
  refresher_client = record {
    get_meta = λ ar. ar.meta;
    set_meta = λ meta ar. record ar { meta = meta };
    update_object = env.update_ami_refresher;
  }

  -- `setStatusCondition`
  unfoldable pub set_status_condition :
      OpsyConditionType → ConditionStatus → String → String → Exec (HeldAr W) (Unit {0})
  set_status_condition type status reason message =
      Cond.set_condition ami_refresher_conditions env.ami_refreshers env type status reason message

  -- The condition `Failed` with the text of the error, which is then returned.
  unfoldable pub fail_with : {A : Type 0} → Error → Exec (HeldAr W) A
  fail_with e =
      set_status_condition OpsyConditionType.failed ConditionStatus.condition_true "Failed"
        e.message
      >> raise e

  -- `if err := r.Get(…, &ar); err != nil { return ctrl.Result{}, client.IgnoreNotFound(err) }`
  unfoldable pub get_again :
      String → String → Exec (HeldAr W) ReconcileResult → Exec (HeldAr W) ReconcileResult
  get_again namespace name rest =
      handling (outside_ar (env.get_ami_refresher namespace name))
        (λ e. if is_not_found e then pure done else raise e) (λ ar. write_ar (λ _. ar) >> rest)

  abbrev set_ami : StatusResult → Exec (HeldAr W) (Unit {0})
  set_ami results = elim results.error [
    | some e ↦ fail_with e
    | none ↦ write_ar (λ ar. record ar { spec = record ar.spec { ami = results.name } })
  ]

  -- The image of the filters, if there are any; the filters themselves are not passed on.
  unfoldable pub choose_ami : Option ManagerAmi → Duration → Exec (HeldAr W) (Unit {0})
  choose_ami am expires_in = do
    ar ← read_ar
    when (not (is_empty ar.spec.ami_filters))
        (outside_ar (ami_checks env am [] expires_in ami_refresh_check) >>= set_ami)

  -- The loop over the node groups.
  unfoldable pub update_groups :
      Option ManagerRefresh → String → List String → Exec (HeldAr W) (Unit {0})
  update_groups m ami [] = pure tt
  update_groups m ami (group ∷ groups) =
      handling (outside_ar (update_node_group_ami env m group ami update_config)) fail_with
        (λ _. update_groups m ami groups)

  -- From the list of the node groups to the end of the loop.
  unfoldable pub refresh_groups : Option ManagerRefresh → Exec (HeldAr W) (Unit {0})
  refresh_groups m = do
    ar ← read_ar
    groups ← handling (outside_ar (list_node_groups env m ar.spec.cluster_name)) fail_with pure
    trimmed ← lift (trim_node_groups groups ar.spec.exclude)
    update_groups m ar.spec.ami trimmed

  -- `Reconcile` from the managers on.
  unfoldable pub refresh : Exec (HeldAr W) ReconcileResult
  refresh = do
    ar ← read_ar
    am ← outside_ar (Ami.new env ar.spec.region)
    m ← outside_ar (Eks.new env ar.spec.region ar.spec.cluster_name)
    choose_ami am (or_zero (env.parse_duration ar.spec.time_outs.expires_in))
    refresh_groups m
    set_status_condition OpsyConditionType.ami_updated ConditionStatus.condition_true "Completed"
        "Successfully Update AMI for all required node groups"
    pure (requeue_in (or_zero (env.parse_duration ar.spec.time_outs.controller_timer)))

  -- `Reconcile` from the finalizer on; a refresher that is marked for deletion is refreshed too.
  unfoldable pub finalize : String → String → Exec (HeldAr W) ReconcileResult
  finalize namespace name =
      handle_finalizer env refresher_client
      >> (read_ar >>= λ ar.
          if is_nil ar.meta.deletion_timestamp
          then refresh
          else (set_status_condition OpsyConditionType.in_progress ConditionStatus.condition_true
                "Finalizing"
                "Finalizer operations for custom resource %s name were successfully accomplished"
              >> (handle_finalizer env refresher_client >> get_again namespace name refresh)))

  -- `Reconcile` after the refresher was read.
  unfoldable pub reconcile_refresher : String → String → Exec (HeldAr W) ReconcileResult
  unfolding get_again
  reconcile_refresher namespace name = read_ar >>= λ ar.
      if is_empty ar.status.conditions
      then (set_status_condition OpsyConditionType.in_progress ConditionStatus.condition_unknown
            "Reconciling" "Starting reconciliation"
          >> get_again namespace name (finalize namespace name))
      else finalize namespace name

  abbrev with_ar : String → String → AmiRefresher → Exec W ReconcileResult
  with_ar namespace name ar w =
      let (r, (_, w')) = reconcile_refresher namespace name (ar, w) in (r, w')

  -- `Reconcile`
  unfoldable pub reconcile : String → String → Exec W ReconcileResult
  unfolding reconcile_refresher
  reconcile namespace name =
      handling (env.get_ami_refresher namespace name)
        (λ e. if is_not_found e then pure done else raise e) (λ ar. with_ar namespace name ar)
