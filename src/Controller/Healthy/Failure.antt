-- ===== src/Controller/Healthy/Failure.antt =====
-- packerbuilder_controller.go: a build whose job fails, in a world whose calls succeed.
use opsy_ami_operator.Prelude.{String, false, [], ◌∷◌, ◌==◌, ◌≡◌, refl, ◌∙◌, arith}
use opsy_ami_operator.Prelude.Texts.{concat}
use opsy_ami_operator.Go.{pure}
use opsy_ami_operator.Go.Outcomes.{bind_after}
use opsy_ami_operator.Api.Conditions.{OpsyConditionType, ConditionStatus}
use opsy_ami_operator.Api.States.{PackerBuilderState, LastRunStatus}
use opsy_ami_operator.Opsy.{get_current_state}
use opsy_ami_operator.Opsy.Graph.{◌⟶◌, fail, reset, IsKnown}
use opsy_ami_operator.Env.{Env}
use opsy_ami_operator.Controller.State.{Sys}
use opsy_ami_operator.Controller.Update.{transition_to_error_state}
use opsy_ami_operator.Controller.Handlers.{error_build}
use opsy_ami_operator.Controller.Reconcile.{dispatch, catch_rek}
use opsy_ami_operator.Controller.Healthy.{
  IsHealthy, IsAt, IsSaved, Resources, resources, as_stored, IsSaved-as_stored,
}
use opsy_ami_operator.Controller.Healthy.Updates.{reconcile_update-Reaches}
use opsy_ami_operator.Controller.Healthy.Moves.{Moves, dispatched, went_to}
use opsy_ami_operator.Controller.Healthy.Finish.{JobFails, received}
use opsy_ami_operator.Controller.Healthy.Cycle.{Visits, over, moved, continued}

from_running :
    {s : PackerBuilderState} → s ≡ PackerBuilderState.job_running → s ⟶ PackerBuilderState.error
from_running {s} h = fail (coe 1 0 (i. IsKnown (h i)) tt) (λ e. ground arith) refl

from_error :
    {s : PackerBuilderState} → s ≡ PackerBuilderState.error → s ⟶ PackerBuilderState.initial
from_error h = reset (coe 1 0 (i. IsKnown (h i)) tt) refl

module _ {W : Type 0} (env : Env W) (healthy : IsHealthy env) where
  errs :
      (reason : String) (s : Sys W)
      → get_current_state s.runner s.pb.status.build_id ⟶ PackerBuilderState.error
      → Moves env
          (as_stored healthy (resources s.pb))
          PackerBuilderState.error
          (transition_to_error_state env reason)
          s
  unfolding transition_to_error_state pure
  errs reason s e =
      let (_, t, h, there) =
        reconcile_update-Reaches env healthy PackerBuilderState.error reason LastRunStatus.failed
          ConditionStatus.condition_false OpsyConditionType.failed s e in
      (t, bind_after _ _ s t tt h, there)

  running_to_error :
      JobFails env
      → (res : Resources) (s : Sys W) → IsAt res PackerBuilderState.job_running s
      → Moves env (as_stored healthy res) PackerBuilderState.error (catch_rek env) s
  unfolding dispatch
  running_to_error (reason, fails) res s (current, kept, state) =
      let (m, w, same) =
        dispatched env healthy res PackerBuilderState.job_running s refl (current, kept, state) in
      let at = (λ i. get_current_state s.runner ((kept i).0)) ∙ current in
      let (w₁, outcome) = received env healthy false reason (record s { world = w }) fails in
      let (t, h, there) =
        errs (concat ("Job failed: " ∷ reason ∷ [])) (record s { world = w₁ }) (from_running at) in
      (
        t,
        same ∙ outcome ∙ h,
        coe 0 1 (i. IsSaved env (as_stored healthy (kept i)) PackerBuilderState.error t) there,
      )

  error_to_initial :
      (res : Resources) (s : Sys W)
      → IsAt res PackerBuilderState.error s
      → Moves env (as_stored healthy res) PackerBuilderState.initial (catch_rek env) s
  unfolding dispatch error_build
  error_to_initial res s (current, kept, state) =
      let (m, w, same) =
        dispatched env healthy res PackerBuilderState.error s refl (current, kept, state) in
      let at = (λ i. get_current_state s.runner ((kept i).0)) ∙ current in
      let (t, h, there) =
        went_to env healthy PackerBuilderState.initial "Transitioning to Initializing"
          LastRunStatus.failed OpsyConditionType.initial "Failed to transition to Error state: "
          (record s { world = w }) (from_error at) in
      (
        t,
        same ∙ h,
        coe 0 1 (i. IsSaved env (as_stored healthy (kept i)) PackerBuilderState.initial t) there,
      )

  -- In a world whose calls succeed and in which nobody edits the image filters of a builder, and
  -- in which the first event of a running build is the failure of its job, two reconciliations
  -- take a saved builder from the running job over the error state to the initial state; each asks
  -- for the next at once. The key pair and the security group of the failed build are still in the
  -- stored status, and so is the build.
  pub reconcile-failed-Visits :
      JobFails env
      → (res : Resources) (s : Sys W) → (res.0 == "") ≡ false
      → IsSaved env res PackerBuilderState.job_running s
      → (u : Sys W) × Visits env res.4 res.5 s
          (PackerBuilderState.error ∷ PackerBuilderState.initial ∷ [])
          u
        × IsSaved env res PackerBuilderState.initial u
  reconcile-failed-Visits fails res s given running =
      let (t, h, erred) =
        continued env healthy res (as_stored healthy res) _ _ s given refl
          (running_to_error fails res) running in
      let (u, h', back) =
        continued env healthy (as_stored healthy res) (as_stored healthy res) _ _ t given refl
          (error_to_initial (as_stored healthy res)) erred in
      (
        u,
        moved env healthy (as_stored healthy res) _ _ s t u h erred.0
            (moved env healthy (as_stored healthy res) _ _ t u u h' back.0 over),
        coe 0 1
            (i.
              IsSaved env (IsSaved-as_stored healthy res PackerBuilderState.job_running s running i)
                PackerBuilderState.initial u)
            back,
      )
