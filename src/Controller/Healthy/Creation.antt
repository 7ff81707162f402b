-- ===== src/Controller/Healthy/Creation.antt =====
-- packerbuilder_controller.go: the creation of the job, in a world in which nothing stands in the
-- way.
use opsy_ami_operator.Prelude.{
  String, true, false, some, List, [], ◌≡◌, refl, ◌∙◌, ◌==◌, if◌then◌else◌,
}
use opsy_ami_operator.Prelude.Texts.{join}
use opsy_ami_operator.Go.{Exec, Result, ok, pure, lift, total, and_then, ◌>>=◌}
use opsy_ami_operator.Go.Outcomes.{bind_after, handling_after, handling_failed}
use opsy_ami_operator.Api.{PackerBuilder}
use opsy_ami_operator.Api.Commands.{Command}
use opsy_ami_operator.Api.Conditions.{OpsyConditionType}
use opsy_ami_operator.Api.States.{PackerBuilderState, LastRunStatus}
use opsy_ami_operator.Opsy.{get_current_state}
use opsy_ami_operator.Opsy.Graph.{run}
use opsy_ami_operator.Env.{Env}
use opsy_ami_operator.Env.Kube.{Job}
use opsy_ami_operator.Packer.Manager.{
  ManagerPacker, Held, outside, read_pb, write_pb, update_status,
}
use opsy_ami_operator.Packer.Commands.{construct_line, with_commands, with_command, collect}
use opsy_ami_operator.Packer.Commands.Defaults.{ensure_default_commands_lem}
use opsy_ami_operator.Packer.Job
use opsy_ami_operator.Packer.Job.{job_of, secret_vars, set_debug}
use opsy_ami_operator.Controller.State.{Sys, held, in_world}
use opsy_ami_operator.Controller.Handlers.{
  pb_of, set_job, construct_command, setup_job, create_if_missing, create_build,
}
use opsy_ami_operator.Controller.Reconcile.{dispatch, catch_rek}
use opsy_ami_operator.Controller.Healthy.{
  IsHealthy, Gives, IsAt, IsSaved, Resources, resources, as_stored,
}
use opsy_ami_operator.Controller.Healthy.Updates.{status_updated}
use opsy_ami_operator.Controller.Healthy.Moves.{Moves, dispatched, went_to}
use opsy_ami_operator.Controller.Healthy.Fresh.{IsFresh, outside_after}
use opsy_ami_operator.Controller.Healthy.Checks.{held_after, in_world_after}

-- A builder with its commands and its shell line.
abbrev lined : PackerBuilder → List Command → PackerBuilder
lined pb commands = with_command (with_commands pb commands) (join (collect false commands) " && ")

constructed :
    (pb : PackerBuilder) → (commands : List Command) × (construct_line pb ≡ ok (lined pb commands))
unfolding construct_line
constructed pb =
    let (i, v, rest, placed, _, _, _, _) = ensure_default_commands_lem pb in
    (_, λ k. and_then (placed k) λ commands. ok (lined pb commands))

-- A value that was computed.
lift_after : {S A : Type 0} (r : Result A) (s : S) (a : A) → r ≡ ok a → lift r s ≡ (ok a, s)
unfolding lift
lift_after r s a h i = (h i, s)

module _ {W : Type 0} (env : Env W) (healthy : IsHealthy env) where
  pub saved :
      (pb : PackerBuilder) (w : W) → (w' : W) × (update_status env (pb, w) ≡ (ok tt, (pb, w')))
  unfolding update_status
  saved pb w =
      let (w', h, _) = status_updated env healthy pb w in (w', λ i. ((h i).0, (pb, (h i).1)))

  commanded :
      (m : ManagerPacker) (pb : PackerBuilder) (w : W)
      → (commands : List Command) × (w' : W) × (construct_command env (some m) (pb, w)
          ≡ (ok tt, (lined pb commands, w')))
  unfolding construct_command
  commanded m pb w =
      let (commands, h) = constructed pb in
      let pb' = lined pb commands in
      let (w', done) = saved pb' w in
      (
        commands,
        w',
        bind_after read_pb _ (pb, w) (pb, w) pb refl
            ∙ bind_after (lift (construct_line pb)) _ (pb, w) (pb, w) pb'
                (lift_after (construct_line pb) (pb, w) pb' h)
            ∙ bind_after (write_pb (λ _. pb')) _ (pb, w) (pb', w) tt refl
            ∙ done,
      )

  named :
      {B : Type 0} (f : String → Exec (Held W) B) (pb : PackerBuilder) (w : W)
      → (uuid : String) × (w' : W) × ((outside (total env.new_uuid) >>= f) (pb, w)
          ≡ f uuid (pb, w'))
  unfolding total ◌>>=◌
  named f pb w = ((env.new_uuid w).0, (env.new_uuid w).1, refl)

  -- The job's names and the command are set; what else the builder has is kept.
  set_up :
      (m : ManagerPacker) (pb : PackerBuilder) (w : W)
      → (pb' : PackerBuilder) × (w' : W) × (setup_job env (some m) (pb, w) ≡ (ok tt, (pb', w')))
        × (resources pb' ≡ resources pb)
  unfolding setup_job
  set_up m pb w =
      let (uuid, w₁, fresh_id) = named _ pb w in
      let pb₁ = set_job env uuid pb in
      let (commands, w₂, ordered) = commanded m pb₁ w₁ in
      let pb' = lined pb₁ commands in
      let (w₃, done) = saved pb' w₂ in
      (
        pb',
        w₃,
        fresh_id
            ∙ bind_after (write_pb (set_job env uuid)) _ (pb, w₁) (pb₁, w₁) tt refl
            ∙ bind_after (construct_command env (some m)) _ (pb₁, w₁) (pb', w₂) tt ordered
            ∙ done,
        refl,
      )

  variables : (pb : PackerBuilder) (w : W) → Gives (secret_vars env pb) w
  unfolding pure
  variables pb w =
      let name = pb.spec.builder.secret in
      let (secret, _, w', read, _, _) = healthy.secret_read pb.meta.namespace name w in
      elim (name == "")
        as (λ empty.
          Gives
            (if empty
              then pure []
              else (env.get_secret pb.meta.namespace name >>= λ m. pure (Job.secret_env name m)))
            w) [
              | true ↦ ([], w, refl)
              | false ↦
                  (_, w', bind_after (env.get_secret pb.meta.namespace name) _ w w' secret read)
            ]

  built :
      (pb : PackerBuilder) (w : W)
      → (job : Job) × (w' : W) × (Job.job env (pb, w) ≡ (ok job, (set_debug pb, w')))
  unfolding Job.job pure
  built pb w =
      let pb' = set_debug pb in
      let (vars, w', read) = variables pb' w in
      (
        _,
        w',
        bind_after (write_pb set_debug) _ (pb, w) (pb', w) tt refl
            ∙ bind_after read_pb _ (pb', w) (pb', w) pb' refl
            ∙ bind_after (outside (secret_vars env pb')) _ (pb', w) (pb', w') vars
                (outside_after (secret_vars env pb') pb' w w' vars read),
      )

  module _ (fresh : IsFresh env) where
    submitted : (pb : PackerBuilder) (job : Job) (w : W) → Gives (create_if_missing env pb job) w
    unfolding create_if_missing
    submitted pb job w =
        let (e, w₁, failed, missing) = fresh.no_job pb.meta.namespace pb.meta.name w in
        let (_, w₂, created) = fresh.job_created job w₁ in
        (
          tt,
          w₂,
          handling_failed (env.get_job pb.meta.namespace pb.meta.name) _ _ w w₁ e failed
              ∙ (λ i. (if missing i then env.create_job job else pure tt) w₁)
              ∙ created,
        )

    submits :
        (m : ManagerPacker) (s : Sys W)
        → get_current_state s.runner s.pb.status.build_id ≡ PackerBuilderState.job_creation
        → Moves env
            (as_stored healthy (resources s.pb))
            PackerBuilderState.job_running
            (create_build env (some m))
            s
    unfolding create_build
    submits m s current =
        let (pb₁, w₁, setup, same) = set_up m s.pb s.world in
        let (job, w₂, made) = built pb₁ w₁ in
        let pb₂ = set_debug pb₁ in
        let (owned, given) = fresh.job_owned pb₂ job in
        let (_, w₃, created) = submitted pb₂ owned w₂ in
        let s₁ = record s { pb = pb₁; world = w₁ } in
        let s₂ = record s { pb = pb₂; world = w₂ } in
        let s₃ = record s { pb = pb₂; world = w₃ } in
        let (t, h, there) =
          went_to env healthy PackerBuilderState.job_running "Transitioning to JobRunning"
            LastRunStatus.running OpsyConditionType.in_progress
            "Failed to transition to JobRunning state: " s₃
            (run ((λ i. get_current_state s.runner ((same i).0)) ∙ current) refl) in
        (
          t,
          handling_after (held (setup_job env (some m))) _ _ s s₁ tt
                (held_after (setup_job env (some m)) s pb₁ w₁ tt setup)
              ∙ handling_after (held (Job.job env)) _ _ s₁ s₂ job
                  (held_after (Job.job env) s₁ pb₂ w₂ job made)
              ∙ bind_after pb_of _ s₂ s₂ pb₂ refl
              ∙ handling_after (lift (env.set_controller_reference pb₂ job)) _ _ s₂ s₂ owned
                  (lift_after (env.set_controller_reference pb₂ job) s₂ owned given)
              ∙ handling_after (in_world (create_if_missing env pb₂ owned)) _ _ s₂ s₃ tt
                  (in_world_after (create_if_missing env pb₂ owned) s₂ w₃ tt created)
              ∙ h,
          coe 0 1 (i. IsSaved env (as_stored healthy (same i)) PackerBuilderState.job_running t)
              there,
        )

    pub creation_to_running :
        (res : Resources) (s : Sys W)
        → IsAt res PackerBuilderState.job_creation s
        → Moves env (as_stored healthy res) PackerBuilderState.job_running (catch_rek env) s
    unfolding dispatch
    creation_to_running res s (current, kept, state) =
        let (m, w, same) =
          dispatched env healthy res PackerBuilderState.job_creation s refl
            (current, kept, state) in
        let at = (λ i. get_current_state s.runner ((kept i).0)) ∙ current in
        let (t, h, there) = submits m (record s { world = w }) at in
        (
          t,
          same ∙ h,
          coe 0 1 (i. IsSaved env (as_stored healthy (kept i)) PackerBuilderState.job_running t)
              there,
        )
