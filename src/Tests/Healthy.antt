-- ===== src/Tests/Healthy.antt =====
-- A build by the controller in a world whose calls succeed; the world is the status of the builder
-- that the API server has.
use opsy_ami_operator.Prelude.{
  String, arith, ◌≡◌, ◌∙◌, ◌≢◌, Bool, some, none, true, false, refl, [], ◌∷◌,
}
use opsy_ami_operator.Go.{Error, not_found, ok, err}
use opsy_ami_operator.Api.{PackerBuilder, PackerBuilderStatus}
use opsy_ami_operator.Api.States.{PackerBuilderState}
use opsy_ami_operator.Opsy.{get_current_state}
use opsy_ami_operator.Env.{Env, build_result}
use opsy_ami_operator.Packer.Active.{get_active_builds}
use opsy_ami_operator.Controller.State.{Sys}
use opsy_ami_operator.Opsy
use opsy_ami_operator.Opsy.Graph.{IsKnown, ◌⟶*◌}
use opsy_ami_operator.Controller.Reconcile.{catch_rek, reconcile}
use opsy_ami_operator.Controller.Reconcile.Goes.{Brings}
use opsy_ami_operator.Controller.Reconcile.Goes.Catch.{catch_rek-Brings}
use opsy_ami_operator.Controller.Reconcile.Lifetime.{none_yet, reconciles, Reconciled-new-IsKnown}
use opsy_ami_operator.Controller.Healthy.{IsHealthy, IsSaved, Resources}
use opsy_ami_operator.Controller.Healthy.Fresh.{IsFresh}
use opsy_ami_operator.Controller.Healthy.Cycle.{Visits, IsNew, build_states, reconcile-Visits}
use opsy_ami_operator.Controller.Healthy.Failure.{reconcile-failed-Visits}
use opsy_ami_operator.Controller.Healthy.Checks.{flight_check-Moves}
use opsy_ami_operator.Controller.Reconcile.Guarded.{IsClear, flight_check-IsClear}
use opsy_ami_operator.Controller.Reconcile.Passes.{AllPass}
use opsy_ami_operator.Controller.Reconcile.Checked.{flight_check-AreChecked}
use opsy_ami_operator.Controller.Handlers.{flight_check}
use opsy_ami_operator.Packer.Manager.{ManagerPacker}
use opsy_ami_operator.Tests.World.{any_env, test_pb}

abbrev not_found_error : Error
not_found_error = record { message = "not found"; cause = not_found }

-- The builder of a name, of which the world has the status.
abbrev stored_pb : String → String → PackerBuilderStatus → PackerBuilder
stored_pb namespace name status = record test_pb {
  meta = record test_pb.meta { namespace = namespace; name = name };
  status = status;
}

-- An empty patch saves nothing, jobs succeed or fail, and no job and no image is there.
abbrev env_with : Bool → Env PackerBuilderStatus
env_with succeeded = record any_env {
  watch_events = λ _ w. (build_result true succeeded "The job has ended" ∷ [], w);
  kube = record any_env.kube {
    get_packer_builder = λ namespace name w. (ok (stored_pb namespace name w), w);
    packer_builders = record {
      get_latest = λ pb w. (ok (stored_pb pb.meta.namespace pb.meta.name w), w);
      update_status = λ pb w. (ok tt, pb.status);
      retry_on_conflict = λ m. m;
    };
    patch_packer_builder = λ pb _ w. (ok (stored_pb pb.meta.namespace pb.meta.name w), w);
    get_job = λ _ _ w. (err not_found_error, w);
  };
  ec2 = record any_env.ec2 {
    delete_key_pair = λ _ w. (ok tt, w);
    describe_images = λ _ w. (ok [], w);
  };
}

abbrev healthy_env : Env PackerBuilderStatus
healthy_env = env_with true

abbrev failing_env : Env PackerBuilderStatus
failing_env = env_with false

env_with-IsHealthy : (succeeded : Bool) → IsHealthy (env_with succeeded)
env_with-IsHealthy succeeded = record {
  stored = stored_pb;
  filters = λ _ _. none;
  identified = λ _ _ _. (refl, refl, refl);
  builder_read = λ _ _ w. (w, refl, refl);
  latest_read = λ _ w. (w, refl, refl);
  status_written = λ _ _ status w. (status, refl, refl);
  patched = λ _ w. (w, refl, refl);
  tried_once = λ m w w' h. h;
  secret_read = λ _ _ w. (("token", "xoxb") ∷ [], "xoxb", w, refl, refl, λ _ _. refl);
  posted = λ _ _ _ w. (w, refl, λ _ _. refl);
  config_loaded = λ _ w. (tt, w, refl);
  key_pair_described = λ _ w. (tt, w, refl);
  key_pair_deleted = λ _ w. (tt, w, refl);
  group_described = λ _ w. (tt, w, refl);
  group_deleted = λ _ w. (tt, w, refl);
}

healthy_env-IsFresh : IsFresh healthy_env
unfolding get_active_builds
healthy_env-IsFresh = record {
  result_taken = λ _. refl;
  result_first = λ _. refl;
  jobs_finished = λ _ _ w. ([], w, refl, refl);
  no_images = λ _ w. (w, refl);
  no_job = λ _ _ w. (not_found_error, w, refl, refl);
  job_created = λ _ w. (tt, w, refl);
  job_owned = λ _ job. (job, refl);
}

abbrev new_pb : PackerBuilder
new_pb = record test_pb {
  status = record test_pb.status { build_id = ""; state = PackerBuilderState.other "" };
}

abbrev at_start : Sys PackerBuilderStatus
at_start = record { pb = test_pb; runner = record { states = [] }; world = new_pb.status }

new_pb-IsNew : IsNew healthy_env "images" "web" new_pb
new_pb-IsNew = record {
  unnamed = refl;
  unset = refl;
  unfiltered = refl;
  namespaced = refl;
  named = refl;
  untried = refl;
}

reconcile-Visits_example :
    (u : Sys PackerBuilderStatus) × Visits healthy_env "images" "web" at_start build_states u
    × IsSaved healthy_env
        ("00000000-0000", "", "", none, "images", "web", false)
        PackerBuilderState.initial
        u
unfolding get_current_state
reconcile-Visits_example =
    reconcile-Visits healthy_env (env_with-IsHealthy true) healthy_env-IsFresh
      ("The job has ended", λ _ _. ([], refl)) "images" "web" at_start new_pb new_pb.status refl
      new_pb-IsNew refl refl

-- Two reconciliations of the builder.
abbrev once : Sys PackerBuilderStatus
once = (reconcile healthy_env "images" "web" at_start).1

Reconciled-new-IsKnown_example :
    IsKnown (get_current_state (reconcile healthy_env "images" "web" once).1.runner "00000000-0000")
    × (PackerBuilderState.initial
        ⟶* get_current_state (reconcile healthy_env "images" "web" once).1.runner "00000000-0000")
unfolding Opsy.new
Reconciled-new-IsKnown_example =
    Reconciled-new-IsKnown healthy_env
      (reconciles "images" "web" once (reconciles "images" "web" at_start none_yet)) "00000000-0000"

-- The builder of a running job.
abbrev running_pb : PackerBuilder
running_pb = record test_pb {
  status = record test_pb.status { state = PackerBuilderState.job_running };
}

abbrev at_run : Sys PackerBuilderStatus
at_run = record {
  pb = running_pb;
  runner = record { states = ("b1", PackerBuilderState.job_running) ∷ [] };
  world = running_pb.status;
}

catch_rek-Brings_example :
    Brings PackerBuilderState.job_running at_run.runner (catch_rek healthy_env at_run).1.runner
unfolding get_current_state
catch_rek-Brings_example = catch_rek-Brings healthy_env at_run refl

abbrev run_resources : Resources
run_resources = ("b1", "packer-key", "", none, "images", "web", false)

reconcile-failed-Visits_example :
    (u : Sys PackerBuilderStatus) × Visits failing_env "images" "web" at_run
      (PackerBuilderState.error ∷ PackerBuilderState.initial ∷ [])
      u
    × IsSaved failing_env run_resources PackerBuilderState.initial u
unfolding get_current_state
reconcile-failed-Visits_example =
    reconcile-failed-Visits failing_env (env_with-IsHealthy false)
      ("The job has ended", λ _ _. ([], refl)) run_resources at_run refl
      ((refl, refl, refl), running_pb.status, refl)

abbrev checking_pb : PackerBuilder
checking_pb = record test_pb {
  status = record test_pb.status { state = PackerBuilderState.flight_checks };
}

abbrev at_checks : Sys PackerBuilderStatus
at_checks = record {
  pb = checking_pb;
  runner = record { states = ("b1", PackerBuilderState.flight_checks) ∷ [] };
  world = checking_pb.status;
}

not_yet : get_current_state at_checks.runner "b1" ≢ PackerBuilderState.job_creation
unfolding get_current_state
not_yet h = ground arith

abbrev a_manager : ManagerPacker
a_manager = record { region = "eu-west-1" }

created :
    get_current_state (flight_check healthy_env (some a_manager) at_checks).1.runner "b1"
    ≡ PackerBuilderState.job_creation
unfolding get_current_state
created =
    let (t, h, ((current, _, _), _, _)) =
      flight_check-Moves healthy_env (env_with-IsHealthy true) healthy_env-IsFresh a_manager
        at_checks refl refl in
    (λ i. get_current_state (h i).1.runner "b1") ∙ current

flight_check-IsClear_example : IsClear healthy_env "images" "web" checking_pb.status
flight_check-IsClear_example =
    flight_check-IsClear healthy_env (some a_manager) at_checks "b1" not_yet created

flight_check-AreChecked_example :
    AllPass healthy_env (some a_manager) checking_pb checking_pb.status
flight_check-AreChecked_example =
    flight_check-AreChecked healthy_env (some a_manager) at_checks "b1" not_yet created
