-- ===== src/Controller/Handlers.antt =====
-- packerbuilder_controller.go: the handlers of the states, but for that of a running job.
use Prim.Native.String.{slice}
use opsy_ami_operator.Prelude.{
  String, Bool, true, false, not, Option, none, some, List, [], ◌∷◌, ◌==◌, if◌then◌else◌,
}
use opsy_ami_operator.Prelude.Int.{ℤ, pos, leb_ℤ}
use opsy_ami_operator.Prelude.Texts.{concat, contains}
use opsy_ami_operator.Go.{
  Exec, ok, pure, panic, lift, total, when, handling, ◌>>=◌, ◌>>◌, is_not_found,
}
use opsy_ami_operator.Api.{PackerBuilder, PackerBuilderStatus, AmiFilters}
use opsy_ami_operator.Api.Conditions.{Duration, or_zero, OpsyConditionType, ConditionStatus}
use opsy_ami_operator.Api.States.{PackerBuilderState, LastRunStatus, JobStatus, ImageType}
use opsy_ami_operator.Env.{Env}
use opsy_ami_operator.Env.Kube.{Job}
use opsy_ami_operator.Status.{StatusResult}
use opsy_ami_operator.Ami
use opsy_ami_operator.Packer.Manager
use opsy_ami_operator.Packer.Manager.{
  ManagerPacker, Held, outside, write_pb, read_pb, update_status,
}
use opsy_ami_operator.Packer.Active.{active_build_check}
use opsy_ami_operator.Packer.Cleanup.{delete_key_pair, delete_security_group}
use opsy_ami_operator.Packer.Commands.{construct_line}
use opsy_ami_operator.Packer.Images.{latest_ami_does_not_exist_or_expired}
use opsy_ami_operator.Packer.Job
use opsy_ami_operator.Controller.State.{
  Sys, ReconcileResult, requeue_now, requeue_in, held, in_world, set_status,
}
use opsy_ami_operator.Controller.Update.{reconcile_update, or_error_state}

abbrev pub or_default : ℤ → Option ℤ → ℤ
or_default d none = d
or_default d (some n) = n

abbrev pub pb_of : {W : Type 0} → Exec (Sys W) PackerBuilder
pb_of s = (ok s.pb, s)

-- One round of the loop of `processFlightCheckResults`.
abbrev note_result : StatusResult → Bool × PackerBuilder → Bool × PackerBuilder
note_result r (all, pb) =
    if r.success
    then (
      all,
      if contains r.message "Base AMI"
          then record pb { status = record pb.status { last_run_base_image_id = r.name } }
          else pb,
    )
    else (false, pb)

abbrev process_from : List StatusResult → Bool × PackerBuilder → Bool × PackerBuilder
process_from [] s = s
process_from (r ∷ rs) s = process_from rs (note_result r s)

-- `processFlightCheckResults`
unfoldable pub process_flight_check_results :
    List StatusResult → PackerBuilder → Bool × PackerBuilder
process_flight_check_results results pb = process_from results (true, pb)

abbrev pub ami_filters_of : Option (List AmiFilters) → List AmiFilters
ami_filters_of none = []
ami_filters_of (some fs) = fs

abbrev pub set_image_type : PackerBuilder → PackerBuilder
set_image_type pb = record pb {
  spec = record pb.spec { builder = record pb.spec.builder { image_type = ImageType.ami } };
}

module _ {W : Type 0} (env : Env W) where
  -- A transition to the next state; where it fails, to the error state.
  abbrev pub go_to :
      PackerBuilderState
      → String
      → LastRunStatus
      → OpsyConditionType
      → String
      → Exec (Sys W) ReconcileResult
  go_to new_state message last_status condition_type failure =
      or_error_state env failure
        (reconcile_update env new_state message last_status ConditionStatus.condition_true
          condition_type)
        (λ _. pure requeue_now)

  -- `cleanupBuild`
  unfoldable pub cleanup_build : Option ManagerPacker → Exec (Sys W) ReconcileResult
  cleanup_build pm = pb_of >>= λ pb.
      or_error_state env "Failed to delete KeyPair: "
        (when (not (pb.status.last_run_key_pair == ""))
          (in_world (delete_key_pair env pm pb.status.last_run_key_pair)))
        λ _.
          set_status (λ s. record s { last_run_key_pair = "" })
          >> or_error_state env "Failed to delete Security Group: "
              (when (not (pb.status.last_run_security_group_id == ""))
                (in_world (delete_security_group env pm pb.status.last_run_security_group_id)))
              λ _.
                set_status (λ s. record s { last_run_security_group_id = "" })
                >> go_to PackerBuilderState.initial "Transitioning to Intializing"
                    LastRunStatus.running OpsyConditionType.initial
                    "Failed to transition to Initialize state: "

  -- `ConstructCommand`; the status client of a nil manager is read through.
  unfoldable pub construct_command : Option ManagerPacker → Exec (Held W) (Unit {0})
  construct_command pm = do
    pb ← read_pb
    pb' ← lift (construct_line pb)
    write_pb (λ _. pb')
    elim pm [ none ↦ panic | some _ ↦ update_status env ]

  abbrev pub set_job : String → PackerBuilder → PackerBuilder
  set_job uuid pb =
      let id = slice uuid 0 5 in
      record pb {
        status = record pb.status {
          job_id = id;
          job_name = concat (pb.meta.name ∷ "-" ∷ id ∷ []);
          job_status = JobStatus.running;
        };
      }

  -- `setupJob`
  unfoldable pub setup_job : Option ManagerPacker → Exec (Held W) (Unit {0})
  unfolding construct_command
  setup_job pm = do
    uuid ← outside (total env.new_uuid)
    write_pb (set_job uuid)
    construct_command pm
    update_status env

  -- The Get by the builder's key, and the Create if it finds no job; any other error is dropped.
  unfoldable pub create_if_missing : PackerBuilder → Job → Exec W (Unit {0})
  create_if_missing pb ami_build =
      handling (env.get_job pb.meta.namespace pb.meta.name)
        (λ e. if is_not_found e then env.create_job ami_build else pure tt) (λ _. pure tt)

  -- `createBuild`
  unfoldable pub create_build : Option ManagerPacker → Exec (Sys W) ReconcileResult
  create_build pm = or_error_state env "Failed to setup job: " (held (setup_job pm)) λ _.
      or_error_state env "Unexpected Job Status: " (held (Job.job env)) λ built. pb_of >>= λ pb.
      or_error_state env "Failed to set owner reference on job: "
        (lift (env.set_controller_reference pb built))
        λ owned.
          or_error_state env "Unexpect Job Status " (in_world (create_if_missing pb owned)) λ _.
            go_to PackerBuilderState.job_running "Transitioning to JobRunning" LastRunStatus.running
              OpsyConditionType.in_progress "Failed to transition to JobRunning state: "

  -- `completeBuild`
  unfoldable pub complete_build : Exec (Sys W) ReconcileResult
  complete_build =
      go_to PackerBuilderState.ami_created "Transitioning to AMICreated" LastRunStatus.completed
        OpsyConditionType.ami_created "Failed to transition to AMICreated state: "

  -- `errorBuild`
  unfoldable pub error_build : Exec (Sys W) ReconcileResult
  error_build =
      go_to PackerBuilderState.initial "Transitioning to Initializing" LastRunStatus.failed
        OpsyConditionType.initial "Failed to transition to Error state: "

  -- `performFlightChecks`; the image type is set before the switch over it.
  unfoldable pub perform_flight_checks : Duration → Exec (Held W) Bool
  perform_flight_checks valid_for = do
    pb ← read_pb
    am ← outside (Ami.new env pb.spec.region)
    pm ← outside (Manager.new env pb.spec.region)
    write_pb set_image_type
    base ← outside (Ami.base_ami_exists env am (ami_filters_of pb.spec.ami_filters))
    latest ← latest_ami_does_not_exist_or_expired env pm valid_for
    pb' ← read_pb
    let (all, pb'') = process_flight_check_results (base ∷ latest ∷ []) pb'
    write_pb (λ _. pb'')
    pure all

  abbrev pub start_creation : Exec (Sys W) ReconcileResult
  start_creation =
      go_to PackerBuilderState.job_creation "Transitioning to JobCreation" LastRunStatus.running
        OpsyConditionType.job_created "Failed to transition to JobCreation state: "

  abbrev pub join_running : Exec (Sys W) ReconcileResult
  join_running =
      go_to PackerBuilderState.job_running "Transitioning to JobRunning since Active Build Exist"
        LastRunStatus.running OpsyConditionType.flight_check_passed
        "Failed to transition to JobRunning state: "

  abbrev pub check_images : PackerBuilder → Exec (Sys W) ReconcileResult
  check_images pb =
      or_error_state env "Error performing flight checks: "
        (held (perform_flight_checks (or_zero (env.parse_duration pb.spec.time_outs.expires_in))))
        λ flight_checks_passed.
          if flight_checks_passed
          then start_creation
          else pure (requeue_in (or_zero (env.parse_duration pb.spec.time_outs.controller_timer)))

  -- `flightCheck`
  unfoldable pub flight_check : Option ManagerPacker → Exec (Sys W) ReconcileResult
  flight_check pm = do
    pb ← pb_of
    active_build ← in_world (active_build_check env pm pb.meta.namespace pb.meta.name)
    if active_build.success then check_images pb else join_running

  abbrev pub set_counters : PackerBuilderStatus → PackerBuilderStatus
  set_counters s = record s {
    max_number_of_failed_jobs = some (or_default (pos 3) s.max_number_of_failed_jobs);
    failed_job_count = some (or_default (pos 0) s.failed_job_count);
  }

  -- `*pb.Status.FailedJobCount >= *pb.Status.MaxNumberOfFailedJobs`, after the defaults.
  abbrev pub too_many_failures : PackerBuilder → Bool
  too_many_failures pb =
      leb_ℤ (or_default (pos 3) pb.status.max_number_of_failed_jobs)
        (or_default (pos 0) pb.status.failed_job_count)

  abbrev pub start_checks : Exec (Sys W) ReconcileResult
  start_checks =
      go_to PackerBuilderState.flight_checks "Transitioning to FlightChecks" LastRunStatus.running
        OpsyConditionType.flight_check_started "Failed to transition to FlightChecks state: "

  -- `init`
  unfoldable pub init : Exec (Sys W) ReconcileResult
  init = do
    set_status set_counters
    pb ← pb_of
    if too_many_failures pb
        then pure (requeue_in (or_zero (env.parse_duration pb.spec.time_outs.controller_timer)))
        else start_checks

  -- `transitionToJobCompletedState`
  unfoldable pub transition_to_job_completed_state : Exec (Sys W) ReconcileResult
  transition_to_job_completed_state =
      go_to PackerBuilderState.job_completed "Transitioning to JobCompleted" LastRunStatus.completed
        OpsyConditionType.completed "Failed to transition to JobCompleted state: "
