-- ===== src/Controller/Update.antt =====
-- packerbuilder_controller.go: `reconcileUpdate`, through which every change of state goes, and
-- `transitionToErrorState`.
use opsy_ami_operator.Prelude.{
  String, Bool, true, false, Option, none, some, List, [], ◌∷◌, ◌==◌, if◌then◌else◌,
}
use opsy_ami_operator.Prelude.Texts.{concat, join}
use opsy_ami_operator.Go.{
  Exec, Result, ok, err, panics, errorf, pure, lift, total, handling, ◌>>=◌, ◌>>◌,
}
use opsy_ami_operator.Api.{PackerBuilder, SlackNotifier}
use opsy_ami_operator.Api.Commands.{StringMap}
use opsy_ami_operator.Api.Conditions.{OpsyConditionType, ConditionStatus}
use opsy_ami_operator.Api.States.{PackerBuilderState, LastRunStatus, state_text}
use opsy_ami_operator.Opsy
use opsy_ami_operator.Env.{Env}
use opsy_ami_operator.Cond
use opsy_ami_operator.Events
use opsy_ami_operator.Notifier
use opsy_ami_operator.Notifier.{Message}
use opsy_ami_operator.Packer.Manager.{packer_builder_conditions}
use opsy_ami_operator.Controller.State.{
  Sys, ReconcileResult, requeue_now, held, in_world, on_runner, set_status,
}

-- `isEmpty(pb.Spec.Notify.Slack)`, by DeepEqual with the zero value.
abbrev pub is_empty : SlackNotifier → Bool
is_empty slack = elim slack.channels [ none ↦ slack.secret == "" | some _ ↦ false ]

-- The states in which no message is sent.
abbrev pub is_silent : PackerBuilderState → Bool
is_silent PackerBuilderState.initial = true
is_silent PackerBuilderState.flight_checks = true
is_silent _ = false

abbrev channel_list : Option (List String) → List String
channel_list none = []
channel_list (some l) = l

abbrev pub find_key : String → StringMap → Option String
find_key k [] = none
find_key k ((j, v) ∷ m) = if j == k then some v else find_key k m

abbrev pub token_of : Option String → Result String
token_of none = err (errorf ("secret does not contain 'token' key" ∷ []))
token_of (some t) = ok t

abbrev build_info : PackerBuilder → String → Message
build_info pb message = record {
  name = pb.meta.name;
  latest_base_ami = pb.status.last_run_base_image_id;
  latest_built_ami = pb.status.last_run_built_image_id;
  message = message;
  status = "";
}

module _ {W : Type 0} (env : Env W) where
  -- The fields that `reconcileUpdate` sets first, with the time of the clock.
  unfoldable pub stamp : PackerBuilderState → LastRunStatus → String → Exec (Sys W) (Unit {0})
  stamp new_state last_status message = do
    now ← in_world (total env.now)
    set_status (λ s. record s {
      state = new_state;
      last_run_status = last_status;
      last_run_message = message;
      last_run = now;
    })

  -- The event of `reconcileUpdate`, by the event manager on the recorder of the API server.
  unfoldable pub record_normal_event : String → Exec (Sys W) (Unit {0})
  record_normal_event message s = (
    ok tt,
    record s {
      world =
          Events.record_normal_event (Events.new env.record_event) s.pb
            (state_text s.pb.status.state) message s.world;
    },
  )

  unfoldable pub set_condition :
      OpsyConditionType → ConditionStatus → String → String → Exec (Sys W) (Unit {0})
  set_condition type status reason message = held (
      Cond.set_condition packer_builder_conditions env.packer_builders env type status reason
        message)

  -- The message to Slack, with the token of the secret.
  unfoldable pub send_slack : PackerBuilder → String → Exec W (Unit {0})
  send_slack pb message = do
    secret ← env.get_secret pb.meta.namespace pb.spec.notify.slack.secret
    token ← lift (token_of (find_key "token" secret))
    Notifier.send env token (join (channel_list pb.spec.notify.slack.channels) ", ") pb.meta.name
        (build_info pb message)

  unfoldable pub notify : String → Exec (Sys W) (Unit {0})
  notify message s =
      if is_silent s.pb.status.state
      then (ok tt, s)
      else if is_empty s.pb.spec.notify.slack
      then (ok tt, s)
      else in_world (send_slack s.pb message) s

  -- `r.OpsyRunner.SetState(pb.Status.BuildID, pb.Status.State)`
  unfoldable pub set_state : Exec (Sys W) (Unit {0})
  set_state = on_runner (λ pb. Opsy.set_state pb.status.build_id pb.status.state)

  -- `r.Patch(ctx, pb, client.MergeFrom(pb.DeepCopy()))`: the builder becomes the reply's object.
  unfoldable pub patch : Exec (Sys W) (Unit {0})
  patch s =
      let (r, w) = env.patch_packer_builder s.pb s.pb s.world in
      elim r [
        | ok pb ↦ (ok tt, record s { pb = pb; world = w })
        | err e ↦ (err e, record s { world = w })
        | panics ↦ (panics, record s { world = w })
      ]

  -- `reconcileUpdate`
  unfoldable pub reconcile_update :
      PackerBuilderState
      → String
      → LastRunStatus
      → ConditionStatus
      → OpsyConditionType
      → Exec (Sys W) (Unit {0})
  reconcile_update new_state message last_status condition_status condition_type = do
    stamp new_state last_status message
    record_normal_event message
    set_condition condition_type condition_status (state_text new_state) message
    notify message
    set_state
    patch

  -- `transitionToErrorState`
  unfoldable pub transition_to_error_state : String → Exec (Sys W) ReconcileResult
  transition_to_error_state reason = do
    reconcile_update PackerBuilderState.error reason LastRunStatus.failed
        ConditionStatus.condition_false OpsyConditionType.failed
    pure requeue_now

  -- `if err := m; err != nil { return r.transitionToErrorState(ctx, pb, prefix + err, log) }`
  abbrev pub or_error_state :
      {A : Type 0}
      → String
      → Exec (Sys W) A
      → (A → Exec (Sys W) ReconcileResult)
      → Exec (Sys W) ReconcileResult
  or_error_state prefix m =
      handling m (λ e. transition_to_error_state (concat (prefix ∷ e.message ∷ [])))
