-- ===== src/Controller/Healthy/Fresh.antt =====
-- The checks before a build, in a world in which nothing stands in the way of a new one.
use opsy_ami_operator.Prelude.{String, some, true, false, List, [], ◌∷◌, ◌≡◌, ◌∙◌}
use opsy_ami_operator.Go.{Exec, Error, ok, err, pure, ignore, total, zoom, ◌>>=◌, is_not_found}
use opsy_ami_operator.Go.Outcomes.{bind_after, handling_after, map_error_after}
use opsy_ami_operator.Api.{PackerBuilder}
use opsy_ami_operator.Api.Commands.{StringMap}
use opsy_ami_operator.Env.{Env, result_ready}
use opsy_ami_operator.Env.Kube.{Job}
use opsy_ami_operator.Env.Aws.{Filter}
use opsy_ami_operator.Status
use opsy_ami_operator.Status.{StatusResult}
use opsy_ami_operator.Ami
use opsy_ami_operator.Ami.{
  ManagerAmi, passed, failed_with, describe_images_with_filters, build_filters, base_ami_exists,
  ami_checks, packer_builder_check, find_latest_image,
}
use opsy_ami_operator.Packer.Manager.{ManagerPacker, Held, outside, packer_builder_conditions}
use opsy_ami_operator.Packer.Manager
use opsy_ami_operator.Packer.Active.{
  get_active_builds, update_packer_builder_status, active_build_check, active_build_check_op,
  list_and_record, active_result, references,
}
use opsy_ami_operator.Controller.Healthy.{IsHealthy, Gives}
use opsy_ami_operator.Controller.Healthy.Updates.{status_updated}

-- Nothing times out; no unfinished job and no image is found; there is no
-- job of the builder's name, and one can be made that the builder owns.
pub record IsFresh {W : Type 0} (env : Env W) : Type 0 where
  pub result_taken : (w : W) → (env.select_case w).0 ≡ result_ready
  pub result_first : (w : W) → (env.deadline_first w).0 ≡ false
  pub jobs_finished :
      (namespace : String) (labels : StringMap) (w : W)
      → (jobs : List Job) × (w' : W) × (env.list_jobs namespace labels w ≡ (ok jobs, w'))
        × ((get_active_builds jobs).0 ≡ [])
  pub no_images :
      (filters : List Filter) (w : W) → (w' : W) × (env.describe_images filters w ≡ (ok [], w'))
  pub no_job :
      (namespace name : String) (w : W)
      → (e : Error) × (w' : W) × (env.get_job namespace name w ≡ (err e, w'))
        × (is_not_found e ≡ true)
  pub job_created : (job : Job) (w : W) → Gives (env.create_job job) w
  pub job_owned :
      (pb : PackerBuilder) (job : Job)
      → (owned : Job) × (env.set_controller_reference pb job ≡ ok owned)

-- A result that passes a check.
abbrev pub Passes : {S : Type 0} → Exec S StatusResult → S → Type 0
Passes {S} m s = (r : StatusResult) × (t : S) × (m s ≡ (ok r, t)) × (r.success ≡ true)

module _ {S : Type 0} where
  pub ignore_after : (m : Exec S (Unit {0})) (s t : S) → m s ≡ (ok tt, t) → ignore m s ≡ (ok tt, t)
  unfolding ignore
  ignore_after m s t h = λ i. ignore (λ _. h i) s

-- An action of the world, beside a builder.
pub outside_after :
    {W A : Type 0} (m : Exec W A) (pb : PackerBuilder) (w w' : W) (a : A)
    → m w ≡ (ok a, w')
    → outside m (pb, w) ≡ (ok a, (pb, w'))
outside_after m pb w w' a h = λ i. ((h i).0, (pb, (h i).1))

module _ {W : Type 0} (env : Env W) (healthy : IsHealthy env) (fresh : IsFresh env) where
  taken :
      {S : Type 0} (world : S → W) (with_world : S → W → S) (timeout : String) (t : S)
      (r : StatusResult)
      → (zoom world with_world (total env.select_case) >>= λ taken.
            pure (Manager.select_result env timeout taken r))
          t
        ≡ (ok r, with_world t (env.select_case (world t)).1)
  unfolding zoom total pure ◌>>=◌
  taken world with_world timeout t r i = (
    ok (Manager.select_result env timeout (fresh.result_taken (world t) i) r),
    with_world t (env.select_case (world t)).1,
  )

  pub in_time :
      {S : Type 0} (world : S → W) (with_world : S → W → S) (op : Exec S StatusResult)
      (timeout : String) (s t : S) (r : StatusResult)
      → op s ≡ (ok r, t)
      → Manager.run_with_timeout env world with_world op timeout s
        ≡ (ok r, with_world t (env.select_case (world t)).1)
  unfolding Manager.run_with_timeout
  in_time world with_world op timeout s t r h =
      bind_after op _ s t r h ∙ taken world with_world timeout t r

  received :
      (t : W) (r : StatusResult)
      → (total env.deadline_first >>= λ deadline. pure (Ami.select_result env deadline r)) t
        ≡ (ok r, (env.deadline_first t).1)
  unfolding total pure ◌>>=◌
  received t r i = (ok (Ami.select_result env (fresh.result_first t i) r), (env.deadline_first t).1)

  pub first :
      (op : Exec W StatusResult) (w t : W) (r : StatusResult)
      → op w ≡ (ok r, t)
      → Ami.run_with_timeout env op w ≡ (ok r, (env.deadline_first t).1)
  unfolding Ami.run_with_timeout
  first op w t r h = bind_after op _ w t r h ∙ received t r

  recorded :
      (pb : PackerBuilder) (jobs : List Job) (w : W)
      → (w' : W) × (ignore (update_packer_builder_status env pb jobs) w ≡ (ok tt, w'))
  unfolding update_packer_builder_status
  recorded pb jobs w =
      let pb' = record pb { status = record pb.status { active = references env jobs } } in
      let (w', updated, _) = status_updated env healthy pb' w in
      (
        w',
        ignore_after _ w w' (
            map_error_after _
              (Status.update packer_builder_conditions.has_status env.packer_builders pb') w w' tt
              updated),
      )

  listed :
      (namespace name : String) (latest : PackerBuilder) (w : W)
      → Passes (list_and_record env namespace name latest) w
  unfolding pure
  listed namespace name latest w =
      let (jobs, w₁, found, none_active) =
        fresh.jobs_finished namespace (("created-by", name) ∷ []) w in
      let active = (get_active_builds jobs).0 in
      let (w₂, noted) = recorded latest active w₁ in
      (
        active_result env active (get_active_builds jobs).1,
        w₂,
        handling_after (env.list_jobs namespace (("created-by", name) ∷ [])) _ _ w w₁ jobs found
            ∙ bind_after (ignore (update_packer_builder_status env latest active)) _ w₁ w₂ tt noted,
        (λ i. (active_result env (none_active i) (get_active_builds jobs).1).success),
      )

  pub no_active_build :
      (m : ManagerPacker) (namespace name : String) (w : W)
      → Passes (active_build_check env (some m) namespace name) w
  unfolding active_build_check
  no_active_build m namespace name w =
      let latest = healthy.stored namespace name w in
      let (w₁, read, _) = healthy.builder_read namespace name w in
      let (r, w₂, done, good) = listed namespace name latest w₁ in
      (
        r,
        _,
        in_time (λ w. w) (λ _ w. w) (active_build_check_op env (some m) namespace name) "30s" w w₂ r
            (handling_after (env.get_packer_builder namespace name) _ _ w w₁ latest read ∙ done),
        good,
      )
