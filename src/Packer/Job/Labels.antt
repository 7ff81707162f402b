-- ===== src/Packer/Job/Labels.antt =====
-- job.go: the job that is made for a builder.
use opsy_ami_operator.Prelude.{
  String, Bool, true, false, List, [], ◌∷◌, ◌≡◌, refl, ◌&&◌, arith, eq_iff, ◌++◌, ◌==◌,
  if◌then◌else◌,
}
use opsy_ami_operator.Go.Outcomes.{bind_ok}
use opsy_ami_operator.Go.{Result, ok, err, panics, pure, ◌>>=◌}
use opsy_ami_operator.Api.{PackerBuilder}
use opsy_ami_operator.Api.Commands.{StringMap}
use opsy_ami_operator.Env.{Env}
use opsy_ami_operator.Env.Kube.{Job, EnvVar}
use opsy_ami_operator.Packer.Manager.{outside}
use opsy_ami_operator.Packer.Job

-- The labels with this key and this value.
abbrev pub selects : String → String → StringMap → Bool
selects key value [] = false
selects key value ((k, v) ∷ m) =
    let rest = selects key value m in if k == key then v == value else rest

-- The labels have every key of the selector, with its value.
abbrev pub matches : StringMap → StringMap → Bool
matches [] labels = true
matches ((key, value) ∷ selector) labels = selects key value labels && matches selector labels

-- `job` is the job of the builder, and the list of the check for active builds has it.
abbrev pub IsJobOf : PackerBuilder → Job → Type 0
IsJobOf pb job =
    (job.namespace ≡ pb.meta.namespace)
    × (job.name ≡ pb.status.job_name)
    × (selects "created-by" pb.meta.name job.labels ≡ true)

abbrev job_in : Job → Result Job → Job
job_in j (ok k) = k
job_in j (err e) = j
job_in j panics = j

job_of-IsJobOf : (pb : PackerBuilder) (vars : List EnvVar) → IsJobOf pb (Job.job_of pb vars)
unfolding Job.job_of Job.job_labels
job_of-IsJobOf pb vars = (refl, refl, ground (arith, eq_iff pb.meta.name pb.meta.name))

module _ {W : Type 0} (env : Env W) where
  job_made :
      (pb : PackerBuilder) (w : W) (j : Job)
      → (Job.job env (pb, w)).0 ≡ ok j
      → (vars : List EnvVar) × (Job.job_of (Job.set_debug pb) vars ≡ j)
  unfolding Job.job ◌>>=◌ pure
  job_made pb w j h =
      let pb' = Job.set_debug pb in
      let built : List EnvVar → Job = λ vars. Job.job_of pb' (Job.debug_env ++ vars) in
      let (vars, _, made) =
        bind_ok (outside (Job.secret_vars env pb')) (λ vars. pure (built vars)) (pb', w) j h in
      (Job.debug_env ++ vars, λ i. job_in j (made i))

  -- The job that is made for a builder has the builder's namespace and the name of its status,
  -- and the selector by which the check for active builds lists jobs finds it.
  pub job-IsJobOf :
      (pb : PackerBuilder) (w : W) (j : Job) → (Job.job env (pb, w)).0 ≡ ok j → IsJobOf pb j
  job-IsJobOf pb w j h =
      let (vars, made) = job_made pb w j h in
      coe 0 1 (i. IsJobOf pb (made i)) (job_of-IsJobOf (Job.set_debug pb) vars)

  -- The job that is made for a builder has the label by which the check for active builds lists
  -- jobs, but not the labels by which the failed jobs of the builder are counted.
  pub job-not_counted :
      (pb : PackerBuilder) (w : W) (j : Job)
      → (Job.job env (pb, w)).0 ≡ ok j
      → (matches (("created-by", pb.meta.name) ∷ []) j.labels ≡ true)
        × (matches (Job.failed_job_selector pb) j.labels ≡ false)
  unfolding Job.job_of Job.job_labels
  job-not_counted pb w j h =
      let (vars, made) = job_made pb w j h in
      coe 0 1
        (i.
          (matches (("created-by", pb.meta.name) ∷ []) (made i).labels ≡ true)
          × (matches (Job.failed_job_selector pb) (made i).labels ≡ false))
        (ground (arith, eq_iff pb.meta.name pb.meta.name), refl)
