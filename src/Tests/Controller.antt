-- ===== src/Tests/Controller.antt =====
-- Runs of the controller.
use opsy_ami_operator.Prelude.{String, ◌≡◌, refl, some, [], ◌∷◌, arith}
use opsy_ami_operator.Prelude.Int.{pos}
use opsy_ami_operator.Go.{Result, ok, err, handling, map_error, ◌>>=◌, total, pure, raise}
use opsy_ami_operator.Api.Conditions.{OpsyConditionType, ConditionStatus}
use opsy_ami_operator.Api.States.{PackerBuilderState, LastRunStatus, state_text}
use opsy_ami_operator.Opsy
use opsy_ami_operator.Cond
use opsy_ami_operator.Status
use opsy_ami_operator.Cond.{refresh, upsert}
use opsy_ami_operator.Status.{update_once}
use opsy_ami_operator.Opsy.{transitions, OpsyRunner, get_current_state, is_valid_transition}
use opsy_ami_operator.Opsy.Graph.{◌⟶◌, is_valid_transition_iff}
use opsy_ami_operator.Env.Kube.{Job}
use opsy_ami_operator.Packer.Job.{job_of}
use opsy_ami_operator.Packer.Manager
use opsy_ami_operator.Client.{client_aws}
use opsy_ami_operator.Controller.Reconcile.Restart.{catch_rek-IsForgotten}
use opsy_ami_operator.Packer.Cleanup.{delete_key_pair}
use opsy_ami_operator.Controller.State.{Sys, in_world, set_status, held, on_runner}
use opsy_ami_operator.Controller.Update.{
  transition_to_error_state, reconcile_update, stamp, record_normal_event, set_condition, notify,
  set_state, patch,
}
use opsy_ami_operator.Controller.Transition.{reconcile_update_ok, reconcile_update_refused}
use opsy_ami_operator.Controller.Handlers.{cleanup_build}
use opsy_ami_operator.Controller.Reconcile.{catch_rek}
use opsy_ami_operator.Controller.Reconcile.Stuck.{
  EndsStuck, catch_rek-IsStuck, cleanup_build-IsStuck,
}
use opsy_ami_operator.Tests.World.{test_env, test_pb, refusal}

abbrev created : Sys (Unit {0})
created = record {
  pb = test_pb;
  runner = record { states = ("b1", PackerBuilderState.ami_created) ∷ [] };
  world = tt;
}

abbrev stuck : Sys (Unit {0})
stuck = record created {
  pb = record test_pb { status = record test_pb.status { state = PackerBuilderState.error } };
}

catch_rek-IsStuck_example : EndsStuck (catch_rek test_env stuck)
unfolding get_current_state
catch_rek-IsStuck_example = catch_rek-IsStuck test_env stuck (refl, refl)

not_deleted :
    (delete_key_pair test_env (some (record { region = "eu-west-1" })) "packer-key" tt).0
    ≡ err refusal
unfolding delete_key_pair handling
not_deleted = refl

cleanup_build-IsStuck_example :
    EndsStuck (cleanup_build test_env (some (record { region = "eu-west-1" })) created)
unfolding get_current_state
cleanup_build-IsStuck_example =
    cleanup_build-IsStuck test_env (some (record { region = "eu-west-1" })) created refusal refl
      refl not_deleted

abbrev to_initial : Sys (Unit {0}) → Result (Unit {0}) × Sys (Unit {0})
to_initial =
    reconcile_update test_env PackerBuilderState.initial "again" LastRunStatus.running
      ConditionStatus.condition_true OpsyConditionType.initial

updated : (to_initial created).0 ≡ ok tt
unfolding reconcile_update ◌>>=◌ stamp in_world total set_status record_normal_event set_condition
    held Cond.set_condition Status.update update_once handling pure notify set_state on_runner
    Opsy.set_state state_text refresh upsert patch get_current_state is_valid_transition transitions
    raise
updated = refl

reconcile_update_ok_example :
    (get_current_state created.runner "b1" ⟶ PackerBuilderState.initial)
    × (get_current_state (to_initial created).1.runner "b1" ≡ PackerBuilderState.initial)
reconcile_update_ok_example =
    reconcile_update_ok test_env PackerBuilderState.initial "again" LastRunStatus.running
      ConditionStatus.condition_true OpsyConditionType.initial created updated

abbrev to_running : Sys (Unit {0}) → Result (Unit {0}) × Sys (Unit {0})
to_running =
    reconcile_update test_env PackerBuilderState.job_running "run" LastRunStatus.running
      ConditionStatus.condition_true OpsyConditionType.in_progress

not_to_running : ¬ (get_current_state created.runner "b1" ⟶ PackerBuilderState.job_running)
unfolding get_current_state is_valid_transition
not_to_running e = let v = (is_valid_transition_iff _ _).1 e in ground arith

reconcile_update_refused_example :
    ¬ ((to_running created).0 ≡ ok tt)
    × ((to_running created).1.runner ≡ created.runner)
    × ((to_running created).1.pb.status.build_id ≡ created.pb.status.build_id)
    × ((to_running created).1.pb.status.state ≡ PackerBuilderState.job_running)
reconcile_update_refused_example =
    reconcile_update_refused test_env PackerBuilderState.job_running "run" LastRunStatus.running
      ConditionStatus.condition_true OpsyConditionType.in_progress created not_to_running

abbrev succeeded : Job
succeeded = record (job_of test_pb []) {
  status = record { conditions = []; succeeded = pos 1; failed = pos 0 };
}

abbrev forgotten : Sys (Unit {0})
forgotten = record created { runner = Opsy.new }

managed : Manager.new test_env "eu-west-1" tt ≡ (ok (some (record { region = "eu-west-1" })), tt)
unfolding Manager.new client_aws map_error handling pure
managed = refl

catch_rek-IsForgotten_example :
    (reason : String) × (catch_rek test_env forgotten
      ≡ transition_to_error_state test_env reason forgotten)
unfolding get_current_state Opsy.new
catch_rek-IsForgotten_example =
    catch_rek-IsForgotten test_env forgotten (some (record { region = "eu-west-1" })) tt
      (refl, refl) managed
