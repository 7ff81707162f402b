-- ===== src/Controller/Healthy/Images.antt =====
-- The checks of images before a build, in a world in which no image is found.
use opsy_ami_operator.Prelude.{
  String, Bool, Option, some, none, true, false, List, [], ◌≡◌, refl, ◌∙◌, if◌then◌else◌, ◌==◌,
}
use opsy_ami_operator.Go.{Exec, ok, err, pure, lift, handling, ◌>>=◌}
use opsy_ami_operator.Go.Outcomes.{bind_after, handling_after, handling_failed, map_error_after}
use opsy_ami_operator.Api.{PackerBuilder}
use opsy_ami_operator.Api.Commands.{StringMap}
use opsy_ami_operator.Api.Conditions.{Time, Duration}
use opsy_ami_operator.Client.{client_aws}
use opsy_ami_operator.Env.{Env}
use opsy_ami_operator.Env.Aws.{Image, Filter}
use opsy_ami_operator.Status.{StatusResult}
use opsy_ami_operator.Ami
use opsy_ami_operator.Ami.{
  ManagerAmi, passed, failed_with, no_valid_images, describe_images_with_filters, build_filters,
  base_ami_exists, base_ami_exists_op, ami_checks, ami_checks_op, packer_builder_check,
  find_latest_image,
}
use opsy_ami_operator.Packer.Manager.{ManagerPacker, Held, outside, read_pb}
use opsy_ami_operator.Packer.Images.{
  adopt_existing_image, adopt_of, adoption_op, adoption_result, none_found, adoption_processor,
  on_held, with_held, check_latest_built, latest_ami_does_not_exist_or_expired,
  build_tags_and_filters, options, fixed_tags,
}
use opsy_ami_operator.Controller.Healthy.{IsHealthy}
use opsy_ami_operator.Controller.Healthy.Moves.{client_made}
use opsy_ami_operator.Controller.Healthy.Fresh.{IsFresh, outside_after, in_time, first}

abbrev pub no_filters : StatusResult
no_filters = passed true "No AMI filters provided; skipping base AMI check" ""

abbrev pub no_amis : StatusResult
no_amis = passed true "No AMIs found matching the provided tags" ""

-- A result for a builder in memory that stays as it is.
abbrev pub Answers : {W A : Type 0} → A → Exec (Held W) A → PackerBuilder → W → Type 0
Answers {W} a m pb w = (w' : W) × (m (pb, w) ≡ (ok a, (pb, w')))

module _ {W : Type 0} (env : Env W) (healthy : IsHealthy env) (fresh : IsFresh env) where
  pub ami_made :
      (region : String) (w : W)
      → (m : ManagerAmi) × (w' : W) × (Ami.new env region w ≡ (ok (some m), w'))
  unfolding Ami.new pure
  ami_made region w =
      let (_, w', h) = client_made env healthy region w in
      (_, w', handling_after (client_aws env region) _ _ w w' _ h)

  pub base_skipped :
      (am : Option ManagerAmi) (w : W)
      → base_ami_exists env am [] w ≡ (ok no_filters, (env.deadline_first w).1)
  unfolding base_ami_exists pure
  base_skipped am w = first env healthy fresh (base_ami_exists_op env am []) w w no_filters refl

  described :
      (am : ManagerAmi) (filters : List Filter) (w : W)
      → (w' : W) × (describe_images_with_filters env (some am) filters w ≡ (ok [], w'))
  unfolding describe_images_with_filters
  described am filters w =
      let (w', h) = fresh.no_images filters w in
      (w', map_error_after _ (env.describe_images filters) w w' [] h)

  abbrev own_tags : PackerBuilder → StringMap
  own_tags pb = fixed_tags pb (options false false false)

  tagged :
      (pb : PackerBuilder) (w : W)
      → build_tags_and_filters env pb (options false false false) w ≡ (ok (own_tags pb), w)
  unfolding build_tags_and_filters pure
  tagged pb w = refl

  -- The builder is read, and its tags are used.
  with_tags :
      {B : Type 0} (f : StringMap → Exec (Held W) B) (pb : PackerBuilder) (w : W)
      → (read_pb >>= λ pb'.
            outside (build_tags_and_filters env pb' (options false false false)) >>= f)
          (pb, w)
        ≡ f (own_tags pb) (pb, w)
  with_tags f pb w =
      let tags = build_tags_and_filters env pb (options false false false) in
      bind_after read_pb _ (pb, w) (pb, w) pb refl
      ∙ bind_after (outside tags) f (pb, w) (pb, w) (own_tags pb)
          (outside_after tags pb w w (own_tags pb) (tagged pb w))

  none_latest :
      {B : Type 0} (f : Image × Time → Exec (Held W) B) (s : Held W)
      → (lift (find_latest_image env.parse_rfc3339 []) >>= f) s
        ≡ (err (no_valid_images env.parse_rfc3339), s)
  unfolding find_latest_image lift ◌>>=◌
  none_latest f s = refl

  unadopted :
      (m : ManagerPacker) (pb : PackerBuilder) (w : W)
      → (w' : W) × (adopt_existing_image env m (pb, w)
          ≡ (err (no_valid_images env.parse_rfc3339), (pb, w')))
  unfolding adopt_existing_image
  unadopted m pb w =
      let (am, w₁, made) = ami_made m.region w in
      let filters = build_filters (own_tags pb) in
      let (w₂, empty) = described am filters w₁ in
      let describe = describe_images_with_filters env (some am) filters in
      (
        w₂,
        bind_after (outside (Ami.new env m.region)) _ (pb, w) (pb, w₁) (some am)
              (outside_after (Ami.new env m.region) pb w w₁ (some am) made)
            ∙ with_tags _ pb w₁
            ∙ bind_after (outside describe) _ (pb, w₁) (pb, w₂) []
                (outside_after describe pb w₁ w₂ [] empty)
            ∙ none_latest _ (pb, w₂),
      )

  -- What the adoption says where nothing was adopted: a built image is known, or none was found.
  abbrev unadopted_result : Bool → StatusResult
  unadopted_result unbuilt = if unbuilt then no_amis else adoption_result env none

  adoption_passed :
      (m : ManagerPacker) (pb : PackerBuilder) (w : W)
      → Answers
          (unadopted_result (pb.status.last_run_built_image_id == ""))
          (adoption_op env (some m))
          pb
          w
  unfolding pure
  adoption_passed m pb w =
      let (w', e) = unadopted m pb w in
      elim (pb.status.last_run_built_image_id == "")
        as (λ unbuilt.
          (t : W) × ((if unbuilt
              then handling (adopt_of env (some m))
                  (λ e. if none_found env e.message then pure no_amis else pure (failed_with e))
                  (λ adopted. pure (adoption_result env adopted)) (pb, w)
              else (ok (adoption_result env none), (pb, w)))
            ≡ (ok (unadopted_result unbuilt), (pb, t)))) [
              | true ↦ (w', handling_failed (adopt_existing_image env m) _ _ (pb, w) (pb, w') _ e)
              | false ↦ (w, refl)
            ]

  unadopted-success : (unbuilt : Bool) → (unadopted_result unbuilt).success ≡ true
  unadopted-success true = refl
  unadopted-success false = refl

  latest_missing :
      (m : ManagerPacker) (duration : Duration) (pb : PackerBuilder) (w : W)
      → Answers no_amis (check_latest_built env (some m) duration) pb w
  unfolding check_latest_built ami_checks pure
  latest_missing m duration pb w =
      let (am, w₁, made) = ami_made m.region w in
      let filters = build_filters (own_tags pb) in
      let (w₂, empty) = described am filters w₁ in
      let checks = ami_checks env (some am) (own_tags pb) duration packer_builder_check in
      (
        (env.deadline_first w₂).1,
        bind_after (outside (Ami.new env m.region)) _ (pb, w) (pb, w₁) (some am)
              (outside_after (Ami.new env m.region) pb w w₁ (some am) made)
            ∙ with_tags _ pb w₁
            ∙ outside_after checks pb w₁ (env.deadline_first w₂).1 no_amis (
                first env healthy fresh
                  (ami_checks_op env (some am) (own_tags pb) duration packer_builder_check) w₁ w₂
                  no_amis
                  (handling_after (describe_images_with_filters env (some am) filters) _ _ w₁ w₂ []
                    empty)),
      )

  -- Nothing is adopted, and no latest image is there.
  pub latest_checked :
      (m : ManagerPacker) (duration : Duration) (pb : PackerBuilder) (w : W)
      → Answers no_amis (latest_ami_does_not_exist_or_expired env (some m) duration) pb w
  unfolding latest_ami_does_not_exist_or_expired adoption_processor
  latest_checked m duration pb w =
      let unbuilt = pb.status.last_run_built_image_id == "" in
      let (w₁, passed') = adoption_passed m pb w in
      let w₂ = (env.select_case w₁).1 in
      let (w₃, missing) = latest_missing m duration pb w₂ in
      (
        w₃,
        bind_after (adoption_processor env (some m)) _ (pb, w) (pb, w₂) (unadopted_result unbuilt)
              (in_time env healthy fresh (on_held env) (with_held env) (adoption_op env (some m))
                "45s" (pb, w) (pb, w₁) (unadopted_result unbuilt) passed')
            ∙ (λ i.
                (if unadopted-success unbuilt i
                    then check_latest_built env (some m) duration
                    else pure (unadopted_result unbuilt))
                  (pb, w₂))
            ∙ missing,
      )
