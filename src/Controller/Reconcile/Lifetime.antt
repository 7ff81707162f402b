-- ===== src/Controller/Reconcile/Lifetime.antt =====
-- packerbuilder_controller.go, opsy.go: the runner over the life of the operator.
use opsy_ami_operator.Prelude.{String, ◌≡◌}
use opsy_ami_operator.Api.States.{PackerBuilderState}
use opsy_ami_operator.Opsy
use opsy_ami_operator.Opsy.{OpsyRunner, get_current_state}
use opsy_ami_operator.Opsy.Graph.{
  IsKnown, Progress, Progress-refl, Progress-trans, ◌⟶◌, ◌⟶*◌, here, next, reset, fail, check,
  create, join, run, complete, lose, publish, resume_creation, resume_running, resume_completed,
}
use opsy_ami_operator.Env.{Env}
use opsy_ami_operator.Controller.State.{Sys}
use opsy_ami_operator.Controller.Reconcile.{reconcile}
use opsy_ami_operator.Controller.Reconcile.Progress.{reconcile-Progress}

-- One reconciliation after the other on the same runner, of any builders, whatever others did to the
-- builders and the world in between.
pub data Reconciled {W : Type 0} (env : Env W) : OpsyRunner → OpsyRunner → Type 0 where
  none_yet : {sm : OpsyRunner} → Reconciled env sm sm
  reconciles :
      {sm : OpsyRunner} (namespace name : String) (s : Sys W)
      → Reconciled env sm s.runner
      → Reconciled env sm (reconcile env namespace name s).1.runner

eq-IsKnown : {s t : PackerBuilderState} → IsKnown s → t ≡ s → IsKnown t
eq-IsKnown k e = coe 1 0 (i. IsKnown (e i)) k

⟶-IsKnown : {s t : PackerBuilderState} → s ⟶ t → IsKnown t
⟶-IsKnown (reset _ e) = eq-IsKnown tt e
⟶-IsKnown (fail _ _ e) = eq-IsKnown tt e
⟶-IsKnown (check _ e) = eq-IsKnown tt e
⟶-IsKnown (create _ e) = eq-IsKnown tt e
⟶-IsKnown (join _ e) = eq-IsKnown tt e
⟶-IsKnown (run _ e) = eq-IsKnown tt e
⟶-IsKnown (complete _ e) = eq-IsKnown tt e
⟶-IsKnown (lose _ e) = eq-IsKnown tt e
⟶-IsKnown (publish _ e) = eq-IsKnown tt e
⟶-IsKnown (resume_creation _ e) = eq-IsKnown tt e
⟶-IsKnown (resume_running _ e) = eq-IsKnown tt e
⟶-IsKnown (resume_completed _ e) = eq-IsKnown tt e

⟶*-IsKnown : {s t : PackerBuilderState} → IsKnown s → s ⟶* t → IsKnown t
⟶*-IsKnown k here = k
⟶*-IsKnown k (next p e) = ⟶-IsKnown e

module _ {W : Type 0} (env : Env W) where
  Reconciled-Progress : {sm sm' : OpsyRunner} → Reconciled env sm sm' → Progress sm sm'
  Reconciled-Progress {sm} none_yet = Progress-refl sm
  Reconciled-Progress {sm} (reconciles namespace name s before) =
      Progress-trans sm s.runner (reconcile env namespace name s).1.runner
        (Reconciled-Progress before) (reconcile-Progress env namespace name s)

  -- After any number of reconciliations on the runner that the operator starts with, the state of
  -- each build is one of the eight constants and is reached from Initial along edges of the diagram,
  -- whatever texts the builders had as their states.
  pub Reconciled-new-IsKnown :
      {sm : OpsyRunner}
      → Reconciled env Opsy.new sm
      → (id : String)
      → IsKnown (get_current_state sm id) × (PackerBuilderState.initial ⟶* get_current_state sm id)
  unfolding Opsy.new get_current_state
  Reconciled-new-IsKnown life id =
      let path = Reconciled-Progress life id in (⟶*-IsKnown tt path, path)
