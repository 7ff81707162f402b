-- ===== src/Packer/Active.antt =====
-- pkg/manager_packer/manager.go: the check for builds that are still running.
pub mod Listed
use opsy_ami_operator.Prelude.{
  String, Bool, true, false, Option, none, some, List, [], ◌∷◌, ◌++◌, ◌&&◌, ◌||◌, if◌then◌else◌,
}
use opsy_ami_operator.Go.{
  Exec, Error, Result, ok, err, panics, errorf, wrap, pure, lift, handling, ignore, map_error,
  ◌>>=◌, is_not_found,
}
use opsy_ami_operator.Api.{PackerBuilder, ObjectReference}
use opsy_ami_operator.Api.Conditions.{ConditionStatus}
use opsy_ami_operator.Env.{Env}
use opsy_ami_operator.Env.Kube.{Job, JobCondition, JobConditionType}
use opsy_ami_operator.Status
use opsy_ami_operator.Status.{StatusResult}
use opsy_ami_operator.Ami.{passed, failed_with}
use opsy_ami_operator.Packer.Manager.{ManagerPacker, packer_builder_conditions, run_with_timeout}

abbrev ends_build : JobConditionType → Bool
ends_build JobConditionType.complete = true
ends_build JobConditionType.failed = true
ends_build (JobConditionType.other _) = false

abbrev is_true : ConditionStatus → Bool
is_true ConditionStatus.condition_true = true
is_true _ = false

abbrev any_end : List JobCondition → Bool
any_end [] = false
any_end (c ∷ cs) = if ends_build c.type && is_true c.status then true else any_end cs

-- `isBuildFinished`, of which only the Boolean is used.
unfoldable pub is_build_finished : Job → Bool
is_build_finished job = any_end job.status.conditions

-- `getActiveBuilds`: the jobs that have not finished, and the name of the last of them.
unfoldable pub active_from : List Job → String → List Job → List Job × String
active_from active name [] = (active, name)
active_from active name (job ∷ jobs) =
    if is_build_finished job
    then active_from active name jobs
    else active_from (active ++ (job ∷ [])) job.name jobs

unfoldable pub get_active_builds : List Job → List Job × String
unfolding active_from
get_active_builds jobs = active_from [] "" jobs

module _ {W : Type 0} (env : Env W) where
  -- The loop of `updatePackerBuilderStatus`; a job with no reference is passed over.
  unfoldable pub references : List Job → List ObjectReference
  references [] = []
  references (job ∷ jobs) =
      let rest = references jobs in elim (env.get_reference job) [ some r ↦ r ∷ rest | none ↦ rest ]

  -- `updatePackerBuilderStatus`, on the builder that was just read.
  unfoldable pub update_packer_builder_status : PackerBuilder → List Job → Exec W (Unit {0})
  update_packer_builder_status pb active =
      map_error (wrap "failed to update PackerBuilder status") (
        Status.update packer_builder_conditions.has_status env.packer_builders
          (record pb { status = record pb.status { active = references active } }))

  abbrev pub active_result : List Job → String → StatusResult
  active_result [] name = passed true "No active build found" ""
  active_result (job ∷ jobs) name =
      passed false "An active build exists, skipping job creation" name

  abbrev pub list_and_record : String → String → PackerBuilder → Exec W StatusResult
  list_and_record namespace name latest =
      handling (env.list_jobs namespace (("created-by", name) ∷ []))
        (λ e. pure (failed_with (wrap "unable to list jobs" e)))
        λ builds.
          let (active, job_name) = get_active_builds builds in
          ignore (update_packer_builder_status latest active) >>= λ _.
          pure (active_result active job_name)

  abbrev pub active_build_check_op : Option ManagerPacker → String → String → Exec W StatusResult
  active_build_check_op none namespace name =
      pure (failed_with (errorf ("ManagerPacker or its Client is nil" ∷ [])))
  active_build_check_op (some m) namespace name =
      handling (env.get_packer_builder namespace name)
        (λ e.
          if is_not_found e
          then pure (passed true "PackerBuilder has been deleted" "")
          else pure (failed_with (wrap "failed to get latest version of PackerBuilder" e)))
        (λ latest. list_and_record namespace name latest)

  -- `ActiveBuildCheck`
  unfoldable pub active_build_check : Option ManagerPacker → String → String → Exec W StatusResult
  unfolding run_with_timeout
  active_build_check m namespace name =
      run_with_timeout env (λ w. w) (λ _ w. w) (active_build_check_op m namespace name) "30s"
