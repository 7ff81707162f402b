-- ===== src/Controller/Reconcile.antt =====
-- packerbuilder_controller.go: `Reconcile` and `catchRek`.
pub mod Progress
pub mod Goes
pub mod Lifetime
pub mod Passed
pub mod Guarded
pub mod Checked
pub mod Passes
pub mod Stuck
pub mod Restart
pub mod Unchecked
use opsy_ami_operator.Prelude.{
  is_empty, String, Bool, true, false, not, Option, none, some, List, [], ◌∷◌, ◌==◌, if◌then◌else◌,
}
use opsy_ami_operator.Prelude.Texts.{concat}
use opsy_ami_operator.Go.{
  Exec, Error, Result, ok, err, panics, errorf, pure, raise, total, when, ignore, handling, ◌>>=◌,
  ◌>>◌, is_not_found, is_deadline_exceeded,
}
use opsy_ami_operator.Api.{PackerBuilder}
use opsy_ami_operator.Api.Conditions.{OpsyCondition, OpsyConditionType, ConditionStatus}
use opsy_ami_operator.Api.States.{PackerBuilderState, state_text, state_beq, is_unset}
use opsy_ami_operator.Opsy.{OpsyRunner, get_current_state}
use opsy_ami_operator.Env.{Env}
use opsy_ami_operator.Packer.Manager
use opsy_ami_operator.Packer.Manager.{ManagerPacker, Held, outside, update_status}
use opsy_ami_operator.Controller.State.{
  Sys, ReconcileResult, done, requeue_now, held, in_world, set_status,
}
use opsy_ami_operator.Controller.Update.{set_condition, set_state, or_error_state}
use opsy_ami_operator.Controller.Handlers.{
  cleanup_build, create_build, complete_build, error_build, flight_check, init,
}
use opsy_ami_operator.Controller.Watch.{running_build}

module _ {W : Type 0} (env : Env W) where
  -- `r.OpsyRunner.GetCurrentState(pb.Status.BuildID)`
  abbrev pub current_state : Exec (Sys W) PackerBuilderState
  current_state s = (ok (get_current_state s.runner s.pb.status.build_id), s)

  abbrev pub pb_of : Exec (Sys W) PackerBuilder
  pb_of s = (ok s.pb, s)

  -- The `switch` of `catchRek`.
  unfoldable pub dispatch : PackerBuilderState → Option ManagerPacker → Exec (Sys W) ReconcileResult
  dispatch PackerBuilderState.initial pm = init env
  dispatch PackerBuilderState.flight_checks pm = flight_check env pm
  dispatch PackerBuilderState.job_creation pm = create_build env pm
  dispatch PackerBuilderState.job_running pm = running_build env
  dispatch PackerBuilderState.job_completed pm = complete_build env
  dispatch PackerBuilderState.ami_created pm = cleanup_build env pm
  dispatch PackerBuilderState.error pm = error_build env
  dispatch s pm = raise (errorf ("unknown state: " ∷ state_text s ∷ []))

  -- The runner takes over the state of the builder where the two differ.
  unfoldable pub sync_runner : Exec (Sys W) (Unit {0})
  sync_runner = do
    current ← current_state
    pb ← pb_of
    when (not (state_beq current pb.status.state)) (set_state env)

  -- `catchRek`
  unfoldable pub catch_rek : Exec (Sys W) ReconcileResult
  catch_rek = do
    pb ← pb_of
    pm ← in_world (Manager.new env pb.spec.region)
    or_error_state env "failed to update state: " (sync_runner)
        λ _. current_state >>= λ current. dispatch current pm

  abbrev pub set_build_id : Exec (Sys W) (Unit {0})
  set_build_id = do id ← in_world (total env.new_uuid); set_status (λ s. record s { build_id = id })

  abbrev pub set_initial : Exec (Sys W) ReconcileResult
  set_initial =
      set_status (λ s. record s { state = PackerBuilderState.initial })
      >> handling (held (update_status env))
          (λ e. if is_deadline_exceeded e then pure requeue_now else raise e) (λ _. catch_rek)

  -- `Reconcile` after the builder was read.
  unfoldable pub reconcile_found : Exec (Sys W) ReconcileResult
  unfolding catch_rek
  reconcile_found = do
    pb ← pb_of
    when (pb.status.build_id == "") set_build_id
    when (is_empty pb.status.conditions) (
        ignore (
          set_condition env OpsyConditionType.initial ConditionStatus.condition_true "Starting"
            "Transitioning to Initializing"))
    if is_unset pb.status.state then set_initial else catch_rek

  -- `Reconcile` of the object with this namespace and name. The builder in memory is the one read.
  unfoldable pub reconcile : String → String → Exec (Sys W) ReconcileResult
  unfolding reconcile_found
  reconcile namespace name =
      handling (in_world (env.get_packer_builder namespace name))
        (λ e. if is_not_found e then pure done else raise e)
        (λ pb s. reconcile_found (record s { pb = pb }))
