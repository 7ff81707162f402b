-- ===== src/Tests/World.antt =====
-- Test data: a world in which every call succeeds, and builders.
use opsy_ami_operator.Prelude.{
  ◌==◌, if◌then◌else◌, String, Bool, true, false, not, keep_if, Option, none, some, List, [], ◌∷◌,
}
use opsy_ami_operator.Prelude.Int.{pos}
use opsy_ami_operator.Go.{Exec, Error, Result, ok, err, errorf}
use opsy_ami_operator.Api.{PackerBuilder, AmiRefresher}
use opsy_ami_operator.Api.Conditions.{Time, OpsyConditionType, ConditionStatus}
use opsy_ami_operator.Api.Commands.{Command}
use opsy_ami_operator.Api.States.{PackerBuilderState, LastRunStatus, JobStatus, ImageType}
use opsy_ami_operator.Env.{
  Env, Clock, Scheduler, KubeApi, Ec2Api, EksApi, Finalizers, ticked, called, received,
  result_ready, Pattern, key_pair,
}
use opsy_ami_operator.Env.Aws.{Image, Tag, NodegroupStatus}

abbrev done : {W A : Type 0} → A → Exec W A
done a w = (ok a, w)

abbrev pub refusal : Error
refusal = errorf ("refused" ∷ [])

abbrev tag : String → String → Tag
tag key value = record { key = some key; value = some value }

abbrev pub old_image : Image
old_image = record {
  image_id = "ami-1";
  creation_date = none;
  tags = tag "create-timestamp" "1" ∷ tag "status" "active" ∷ [];
}

abbrev pub new_image : Image
new_image = record old_image {
  image_id = "ami-2";
  tags = tag "create-timestamp" "2" ∷ tag "status" "active" ∷ [];
}

abbrev pub two_images : List Image
two_images = old_image ∷ new_image ∷ []

-- One second after the other.
abbrev pub parse_seconds : String → Result Time
parse_seconds text =
    if text == "1" then ok (pos 1) else if text == "2" then ok (pos 2) else err refusal

abbrev test_clock : {W : Type 0} → Clock W
test_clock = record {
  now = λ w. (pos 10, w);
  new_uuid = λ w. ("00000000-0000", w);
  parse_duration = λ _. some (pos 60);
  parse_rfc3339 = parse_seconds;
  format_time = λ _. "now";
}

abbrev test_scheduler : {W : Type 0} → Scheduler W
test_scheduler = record {
  select_case = λ w. (result_ready, w);
  deadline_first = λ w. (false, w);
  ctx_err = errorf ("context deadline exceeded" ∷ []);
  context_error = λ w. (none, w);
}

-- A refresher with a condition.
abbrev pub test_ar : AmiRefresher
test_ar = record {
  meta = record {
    name = "nodes";
    namespace = "images";
    deletion_timestamp = none;
    finalizers = [];
  };
  spec = record {
    region = "eu-west-1";
    ami = "ami-2";
    ami_filters = [];
    cluster_name = "prod";
    exclude = "db" ∷ [];
    time_outs = record { expires_in = "1h"; controller_timer = "1m" };
    refresh_config = record {
      enable = false;
      force = false;
      max_unavailable = none;
      max_unavailable_percentage = none;
      wait_for_completion = false;
    };
  };
  status = record {
    conditions =
        (record {
          type = OpsyConditionType.initial;
          status = ConditionStatus.condition_true;
          last_transition_time = pos 1;
          reason = "";
          message = "";
        })
        ∷ [];
    last_run = pos 0;
    last_run_status = LastRunStatus.unset;
  };
}

abbrev test_kube : {W : Type 0} → KubeApi W
test_kube = record {
  ami_refreshers = record {
    get_latest = λ ar. done ar;
    update_status = λ _. done tt;
    retry_on_conflict = λ m. m;
  };
  get_ami_refresher = λ _ _. done test_ar;
  update_ami_refresher = λ ar. done ar;
  packer_builders = record {
    get_latest = λ pb. done pb;
    update_status = λ _. done tt;
    retry_on_conflict = λ m. m;
  };
  get_packer_builder = λ _ _ w. (err refusal, w);
  patch_packer_builder = λ pb _. done pb;
  list_jobs = λ _ _. done [];
  get_job = λ _ _ w. (err refusal, w);
  create_job = λ _. done tt;
  get_secret = λ _ _. done (("token", "xoxb") ∷ []);
  set_controller_reference = λ _ job. ok job;
  get_reference = λ _. none;
  record_event = λ _ _ _ _ w. w;
}

-- Every image is there, and no key pair can be deleted.
abbrev test_ec2 : {W : Type 0} → Ec2Api W
test_ec2 = record {
  describe_launch_template_versions = λ _ _. done (some (record { image_id = some "ami-1" }) ∷ []);
  create_launch_template_version = λ _ _ _. done (some (some (pos 2)));
  load_default_config = λ _. done tt;
  describe_images = λ _. done two_images;
  remove_launch_permission = λ _. done tt;
  create_tags = λ _ _. done tt;
  is_operation_error = λ _. false;
  describe_key_pairs = λ _. done tt;
  delete_key_pair = λ _ w. (err refusal, w);
  describe_security_groups = λ _. done tt;
  delete_security_group = λ _. done tt;
}

-- One group on version 1 of its template, which has the image `ami-1`; an update is active at once.
abbrev test_eks : {W : Type 0} → EksApi W
test_eks = record {
  list_nodegroups = λ _. done ("web" ∷ "db" ∷ []);
  describe_nodegroup = λ _ _. done (
      some (record {
        launch_template = some (record { name = some "template"; version = some "1" });
        status = NodegroupStatus.active;
      }));
  update_nodegroup_config = λ _ _ _. done tt;
  update_nodegroup_version = λ _ _ _. done tt;
  wait_events = λ _ _ w. (ticked ∷ called ∷ received ∷ [], w);
}

abbrev pub any_name : String → List String → Bool
any_name f [] = false
any_name f (g ∷ l) = if g == f then true else any_name f l

-- The finalizer is added before the others.
abbrev pub test_finalizers : Finalizers
test_finalizers = record {
  contains_finalizer = λ l f. any_name f l;
  add_finalizer = λ l f. if any_name f l then l else f ∷ l;
  remove_finalizer = λ l f. keep_if (λ g. not (g == f)) l;
}

-- Only the pattern of the key pair matches, on every line.
abbrev pub test_submatch : Pattern → String → Option String
test_submatch key_pair line = some line
test_submatch _ line = none

abbrev pub any_env : {W : Type 0} → Env W
any_env = record {
  clock = test_clock;
  scheduler = test_scheduler;
  kube = test_kube;
  ec2 = test_ec2;
  eks = test_eks;
  finalizers = test_finalizers;
  format_decimal = λ _. "2";
  post_message = λ _ _ _. done tt;
  submatch = test_submatch;
  watch_events = λ _ w. ([], w);
  sort_slice = λ _ l. l;
}

abbrev pub test_env : Env (Unit {0})
test_env = any_env

abbrev pub named_command : String → Command
named_command name = record {
  args = [];
  color = false;
  debug = false;
  on_error = "";
  sub_command = name;
  variables = none;
  variables_file = "";
  working_dir = "";
}

-- A builder whose image was created.
abbrev pub test_pb : PackerBuilder
test_pb = record {
  meta = record { name = "web"; namespace = "images"; deletion_timestamp = none; finalizers = [] };
  spec = record {
    ami_filters = none;
    cluster_name = "prod";
    time_outs = record { expires_in = "1h"; controller_timer = "1m" };
    git_sync = record { image = "git-sync"; name = "sync"; secret = "" };
    notify = record { slack = record { channels = none; secret = "" } };
    region = "eu-west-1";
    builder = record {
      branch = "main";
      commands = named_command "build" ∷ named_command "init" ∷ [];
      debug = false;
      dir = "web";
      image = "packer";
      image_type = ImageType.ami;
      repo_url = "repo";
      secret = "";
      job_service_account_name = "";
    };
  };
  status = record {
    active = [];
    build_id = "b1";
    command = "";
    conditions = [];
    failed_job_count = none;
    job_id = "";
    job_name = "web-1";
    job_status = JobStatus.unset;
    last_run = pos 0;
    last_run_base_image_id = "";
    last_run_built_image_id = "";
    last_run_message = "";
    last_run_status = LastRunStatus.unset;
    last_run_security_group_id = "";
    last_run_key_pair = "packer-key";
    max_number_of_failed_jobs = none;
    state = PackerBuilderState.ami_created;
  };
}
