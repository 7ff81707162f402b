-- ===== src/Packer/Job.antt =====
-- pkg/manager_packer/job.go: the Kubernetes job of a build.
pub mod Labels
use opsy_ami_operator.Prelude.{
  String, Bool, true, false, not, Option, none, some, length, keep_if, List, [], ◌∷◌, ◌++◌, map,
  ◌==◌, if◌then◌else◌,
}
use opsy_ami_operator.Prelude.Int.{ℤ, pos, ltb_ℤ}
use opsy_ami_operator.Prelude.Texts.{concat}
use opsy_ami_operator.Go.{Exec, pure, panic, ◌>>=◌, ◌>>◌}
use opsy_ami_operator.Api.{PackerBuilder}
use opsy_ami_operator.Api.Commands.{StringMap}
use opsy_ami_operator.Env.{Env}
use opsy_ami_operator.Env.Kube.{Job, EnvVar, Container}
use opsy_ami_operator.Packer.Manager.{
  ManagerPacker, Held, outside, write_pb, read_pb, update_status,
}

-- config.go
abbrev pub working_dir : String
working_dir = "ami-builder"

abbrev pub working_dir_root : String
working_dir_root = "workspace"

abbrev plain : String → String → EnvVar
plain name value = record { name = name; value = value; value_from = none }

abbrev from_secret : String → String → String → EnvVar
from_secret name secret key = record {
  name = name;
  value = "";
  value_from = some (record { name = secret; key = key });
}

unfoldable pub job_labels : PackerBuilder → StringMap
job_labels pb =
    ("brought-to-you-by", "opsy-the-ami-operator")
    ∷ ("job-name", pb.status.job_name)
    ∷ ("created-by", pb.meta.name)
    ∷ ("cluster", pb.spec.cluster_name)
    ∷ ("job-id", pb.status.job_id)
    ∷ []

-- The variables of the git-sync container; `filepath.Join` of these constants is written out.
unfoldable pub git_sync_env : PackerBuilder → List EnvVar
git_sync_env pb =
    plain "GITSYNC_ROOT" "/workspace"
    ∷ plain "GITSYNC_LINK" "/workspace/ami-builder"
    ∷ plain "GITSYNC_REPO" pb.spec.builder.repo_url
    ∷ plain "GITSYNC_REF" pb.spec.builder.branch
    ∷ plain "GITSYNC_ONE_TIME" "true"
    ∷ plain "GITSYNC_WAIT" "30"
    ∷ plain "GITSYNC_DEPTH" "1"
    ∷ plain "GITSYNC_VERBOSE" "2"
    ∷ (if pb.spec.git_sync.secret == ""
        then []
        else from_secret "GITSYNC_USERNAME" pb.spec.git_sync.secret "username"
          ∷ from_secret "GITSYNC_PASSWORD" pb.spec.git_sync.secret "token"
          ∷ [])

-- `Debug` is set before it is tested.
abbrev pub debug_env : List EnvVar
debug_env = plain "PACKER_LOG" "1" ∷ plain "AWS_SDK_GO_V2" "debug" ∷ []

-- One variable for each key of the secret, in the order of `range`.
unfoldable pub secret_env : String → StringMap → List EnvVar
secret_env secret [] = []
secret_env secret ((key, _) ∷ m) = from_secret key secret key ∷ secret_env secret m

abbrev workspace_mount : Container → Container
workspace_mount c = record c {
  volume_mounts =
      (record { name = working_dir_root; mount_path = "/workspace"; read_only = false }) ∷ [];
}

abbrev git_sync_container : PackerBuilder → Container
git_sync_container pb = record {
  name = pb.spec.git_sync.name;
  image = pb.spec.git_sync.image;
  image_pull_policy = "IfNotPresent";
  command = [];
  args = [];
  working_dir = "";
  env = git_sync_env pb;
  pre_stop = [];
  volume_mounts = [];
}

abbrev packer_container : PackerBuilder → List EnvVar → Container
packer_container pb env_vars = record {
  name = "packer-runner";
  image = pb.spec.builder.image;
  image_pull_policy = "IfNotPresent";
  command = "sh" ∷ "-c" ∷ [];
  args =
      concat (
        "echo 'Executing command:' && echo '" ∷ pb.status.command ∷ "' && " ∷ pb.status.command
        ∷ [])
      ∷ [];
  working_dir = "/workspace/ami-builder";
  env = env_vars;
  pre_stop = "/bin/sh" ∷ "-c" ∷ "kill -TERM 1" ∷ [];
  volume_mounts = [];
}

-- The object that `Job` builds, with the variables of the packer container.
unfoldable pub job_of : PackerBuilder → List EnvVar → Job
unfolding job_labels git_sync_env
job_of pb env_vars = record {
  name = pb.status.job_name;
  namespace = pb.meta.namespace;
  labels = job_labels pb;
  spec = record {
    pod_replacement_policy = "Failed";
    ttl_seconds_after_finished = pos 900;
    completions = pos 1;
    backoff_limit = pos 0;
    template = record {
      labels = job_labels pb;
      name = pb.status.job_name;
      restart_policy = "Never";
      init_containers = workspace_mount (git_sync_container pb) ∷ [];
      service_account_name = pb.spec.builder.job_service_account_name;
      containers = workspace_mount (packer_container pb env_vars) ∷ [];
      volumes = working_dir_root ∷ [];
    };
  };
  status = record { conditions = []; succeeded = pos 0; failed = pos 0 };
}

abbrev pub set_debug : PackerBuilder → PackerBuilder
set_debug pb = record pb {
  spec = record pb.spec { builder = record pb.spec.builder { debug = true } };
}

-- The labels by which `UpdateFailedJobCount` lists jobs.
abbrev pub failed_job_selector : PackerBuilder → StringMap
failed_job_selector pb =
    ("brought-to-you-by", "opsy-the-ami-operator") ∷ ("packer-builder", pb.meta.name) ∷ []

abbrev pub has_failed : Job → Bool
has_failed job = ltb_ℤ (pos 0) job.status.failed

abbrev set_failed_job_count : List Job → PackerBuilder → PackerBuilder
set_failed_job_count jobs pb = record pb {
  status = record pb.status { failed_job_count = some (pos (length (keep_if has_failed jobs))) };
}

module _ {W : Type 0} (env : Env W) where
  abbrev pub secret_vars : PackerBuilder → Exec W (List EnvVar)
  secret_vars pb =
      if pb.spec.builder.secret == ""
      then pure []
      else (env.get_secret pb.meta.namespace pb.spec.builder.secret >>= λ m.
          pure (secret_env pb.spec.builder.secret m))

  -- `Job`
  unfoldable pub job : Exec (Held W) Job
  unfolding job_of secret_env
  job = do
    write_pb set_debug
    pb ← read_pb
    vars ← outside (secret_vars pb)
    pure (job_of pb (debug_env ++ vars))

  -- `UpdateFailedJobCount`, with fewer than 2 ^ 31 jobs. The pointers that it compares are never
  -- equal, so the status is always written; the client of a nil manager is read through.
  unfoldable pub update_failed_job_count : Option ManagerPacker → Exec (Held W) (Unit {0})
  update_failed_job_count none = panic
  update_failed_job_count (some m) = do
    pb ← read_pb
    jobs ← outside (env.list_jobs pb.meta.namespace (failed_job_selector pb))
    write_pb (set_failed_job_count jobs)
    update_status env
