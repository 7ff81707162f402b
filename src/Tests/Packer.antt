-- ===== src/Tests/Packer.antt =====
-- Runs of the packer manager.
use mathlib.Core.List.{Perm}
use opsy_ami_operator.Prelude.{true, ◌≡◌, refl, ◌≢◌, false, none, List, [], ◌∷◌, ◌++◌, map, keep_if}
use opsy_ami_operator.Go.{ok, ◌>>=◌, pure}
use opsy_ami_operator.Api.Commands.{Command, command_string}
use opsy_ami_operator.Env.Kube.{Job}
use opsy_ami_operator.Packer.Commands.{
  collect, ensure_default_commands, find_command_index, update_command,
}
use opsy_ami_operator.Packer.Commands.Defaults.{with_missing, ensure_default_commands_lem}
use opsy_ami_operator.Packer.Commands.Line.{before_build, from_build, is_build, collect_lem}
use opsy_ami_operator.Packer.Images.{deprecate_others, deprecate_ami}
use opsy_ami_operator.Packer.Images.Deprecate.{for_each, others, deprecate_others_lem}
use opsy_ami_operator.Packer.Job.{failed_job_selector, job, job_of, debug_env, set_debug}
use opsy_ami_operator.Packer.Job.Labels.{matches, job-not_counted}
use opsy_ami_operator.Tests.World.{test_env, test_pb, two_images, named_command}

abbrev commands : List Command
commands = named_command "init" ∷ named_command "build" ∷ named_command "fmt" ∷ []

abbrev made_job : Job
made_job = job_of (set_debug test_pb) (debug_env ++ [])

job_made : (job test_env (test_pb, tt)).0 ≡ ok made_job
unfolding job ◌>>=◌ pure
job_made = refl

ensure_default_commands_lem_example :
    (i v : Command) × (rest : List Command) × (ensure_default_commands test_pb
      ≡ ok (map (update_command test_pb) (i ∷ v ∷ rest)))
    × (i.sub_command ≡ "init")
    × (v.sub_command ≡ "validate")
    × (find_command_index rest "build" ≢ none)
    × Perm (i ∷ v ∷ rest) (with_missing test_pb.spec.builder.commands)
ensure_default_commands_lem_example = ensure_default_commands_lem test_pb

collect_lem_example :
    collect false commands
    ≡ map command_string (before_build commands ++ keep_if is_build (from_build commands))
collect_lem_example = collect_lem commands

deprecate_others_lem_example :
    deprecate_others test_env "ami-2" two_images
    ≡ for_each (λ image. deprecate_ami test_env image.image_id) (others "ami-2" two_images)
deprecate_others_lem_example = deprecate_others_lem test_env "ami-2" two_images

job-not_counted_example :
    (matches (("created-by", "web") ∷ []) made_job.labels ≡ true)
    × (matches (failed_job_selector test_pb) made_job.labels ≡ false)
job-not_counted_example = job-not_counted test_env test_pb tt made_job job_made
