-- ===== src/Packer/Images.antt =====
-- pkg/manager_packer/manager.go: the tags of images, adopting an image that is already there, and
-- deprecating the others.
pub mod Deprecate
pub mod Tags
use opsy_ami_operator.Prelude.{
  String, Bool, true, false, not, Option, none, some, List, [], ◌∷◌, ◌++◌, ◌&&◌, ◌||◌, ◌==◌,
  if◌then◌else◌,
}
use opsy_ami_operator.Prelude.Texts.{concat, contains}
use opsy_ami_operator.Go.{
  Exec, Error, Result, ok, err, panics, errorf, wrap, pure, raise, panic, lift, total, handling,
  ◌>>=◌, ◌>>◌,
}
use opsy_ami_operator.Api.{PackerBuilder}
use opsy_ami_operator.Api.Commands.{StringMap}
use opsy_ami_operator.Api.Conditions.{Duration}
use opsy_ami_operator.Env.{Env}
use opsy_ami_operator.Env.Aws.{Image, Tag}
use opsy_ami_operator.Status.{StatusResult}
use opsy_ami_operator.Ami
use opsy_ami_operator.Ami.{
  passed, failed_with, packer_builder_check, find_latest_image, is_image_active, build_filters,
  describe_images_with_filters, ami_checks,
}
use opsy_ami_operator.Packer.Commands.{map_set}
use opsy_ami_operator.Packer.Manager.{
  ManagerPacker, Held, outside, write_pb, read_pb, update_status, run_with_timeout,
}

pub record FilterOptions : Type 0 where
  pub include_timestamp : Bool
  pub include_identifiers : Bool
  pub include_base_ami : Bool

abbrev pub options : Bool → Bool → Bool → FilterOptions
options timestamp identifiers base_ami = record {
  include_timestamp = timestamp;
  include_identifiers = identifiers;
  include_base_ami = base_ami;
}

abbrev set_if : Bool → String → String → StringMap → StringMap
set_if b key value tags = if b then map_set key value tags else tags

-- The tags of `buildTagsAndFilters` that do not need the clock.
unfoldable pub fixed_tags : PackerBuilder → FilterOptions → StringMap
fixed_tags pb o =
    let base =
      ("brought-to-you-by", "opsy-the-ami-operator")
      ∷ ("cluster-name", pb.spec.cluster_name)
      ∷ ("created-by", pb.meta.name)
      ∷ ("packer-repo", pb.spec.builder.repo_url)
      ∷ ("packer-repo-branch", pb.spec.builder.branch)
      ∷ [] in
    set_if o.include_identifiers "build-id" pb.status.build_id (
      set_if o.include_identifiers "job-id" pb.status.job_id
        (set_if o.include_base_ami "base-ami" pb.status.last_run_base_image_id base))

abbrev base_value : Option String → Result String
base_value none = panics
base_value (some v) = ok v

-- `getBaseAMIID`; a nil key, or a nil value behind the key, is read through.
unfoldable pub get_base_ami_id : List Tag → Result String
get_base_ami_id [] = ok ""
get_base_ami_id (tag ∷ tags) =
    let rest = get_base_ami_id tags in
    elim tag.key [ none ↦ panics | some k ↦ if k == "base-ami" then base_value tag.value else rest ]

abbrev set_adopted : Image → String → String → PackerBuilder → PackerBuilder
set_adopted image base build_id pb = record pb {
  status = record pb.status {
    last_run_built_image_id = image.image_id;
    last_run_base_image_id = base;
    build_id = build_id;
  };
}

abbrev reworded : {S A : Type 0} → String → Exec S A → Exec S A
reworded text m = handling m (λ e. raise (errorf (text ∷ ": " ∷ e.message ∷ []))) pure

module _ {W : Type 0} (env : Env W) where
  abbrev timed_tags : PackerBuilder → FilterOptions → Exec W StringMap
  timed_tags pb o = do
    now ← total env.now
    pure (
        map_set "status" "active"
          (map_set "create-timestamp" (env.format_time now) (fixed_tags pb o)))

  -- `buildTagsAndFilters`
  unfoldable pub build_tags_and_filters : PackerBuilder → FilterOptions → Exec W StringMap
  unfolding fixed_tags
  build_tags_and_filters pb o =
      if o.include_timestamp then timed_tags pb o else pure (fixed_tags pb o)

  -- `deprecateAMI`
  unfoldable pub deprecate_ami : String → Exec W (Unit {0})
  deprecate_ami id = do
    reworded (concat ("failed to deprecate AMI " ∷ id ∷ [])) (env.remove_launch_permission id)
    reworded (concat ("failed to tag AMI " ∷ id ∷ " as deprecated" ∷ []))
        (env.create_tags id (("status", "deprecated") ∷ []))

  -- The loop of `deprecateOldAMIs`, which stops at the first error.
  unfoldable pub deprecate_others : String → List Image → Exec W (Unit {0})
  deprecate_others exclude [] = pure tt
  deprecate_others exclude (image ∷ images) =
      let rest = deprecate_others exclude images in
      if image.image_id == exclude then rest else deprecate_ami image.image_id >> rest

  -- `deprecateOldAMIs`
  unfoldable pub deprecate_old_amis :
      ManagerPacker → PackerBuilder → String → FilterOptions → Exec W (Unit {0})
  deprecate_old_amis m pb exclude o = do
    am ← Ami.new env m.region
    tags ← build_tags_and_filters pb o
    images ← describe_images_with_filters env am (build_filters tags)
    deprecate_others exclude images

  abbrev tag_error : String → Error → Error
  tag_error id e =
      if env.is_operation_error e && contains e.message "InvalidID"
      then errorf ("failed to tag AMI " ∷ id ∷ ": Invalid AMI ID: " ∷ e.message ∷ [])
      else errorf ("failed to tag AMI " ∷ id ∷ ": " ∷ e.message ∷ [])

  -- `tagAMI`
  unfoldable pub tag_ami : String → PackerBuilder → Exec W (Unit {0})
  tag_ami id pb = do
    tags ← build_tags_and_filters pb (options true true true)
    handling (env.create_tags id tags) (λ e. raise (tag_error id e)) pure

  -- `handleAMIUpdates`
  unfoldable pub handle_ami_updates : ManagerPacker → PackerBuilder → Exec W StatusResult
  handle_ami_updates m pb =
      let id = pb.status.last_run_built_image_id in
      run_with_timeout env (λ w. w) (λ _ w. w)
        (handling (tag_ami id pb) (λ e. pure (failed_with e))
          (λ _.
            handling (deprecate_old_amis m pb id (options false false true))
              (λ e. pure (failed_with e))
              (λ _.
                pure (passed true "Successfully tagged the new AMI and deprecated old AMIs" ""))))
        "2m0s"

  -- The part of `adoptExistingImage` after an active image was found.
  unfoldable pub adopt_image : ManagerPacker → Image → Exec (Held W) (Option Image)
  unfolding get_base_ami_id
  adopt_image m image = do
    base ← lift (get_base_ami_id image.tags)
    build_id ← outside (total env.new_uuid)
    write_pb (set_adopted image base build_id)
    reworded "failed to update PackerBuilder status" (update_status env)
    pb ← read_pb
    reworded "failed to tag adopted AMI" (outside (tag_ami image.image_id pb))
    reworded "failed to deprecate old AMIs"
        (outside (deprecate_old_amis m pb image.image_id (options false false true)))
    pure (some image)

  -- `adoptExistingImage`
  unfoldable pub adopt_existing_image : ManagerPacker → Exec (Held W) (Option Image)
  unfolding adopt_image
  adopt_existing_image m = do
    am ← outside (Ami.new env m.region)
    pb ← read_pb
    tags ← outside (build_tags_and_filters pb (options false false false))
    images ← outside (describe_images_with_filters env am (build_filters tags))
    found ← lift (find_latest_image env.parse_rfc3339 images)
    if is_image_active found.0
        then adopt_image m found.0
        else raise (errorf ("latest AMI " ∷ found.0.image_id ∷ " is not active" ∷ []))

  abbrev pub none_found : String → Bool
  none_found text =
      contains text "no AMIs found matching the provided filters"
      || contains text "no valid images found"

  abbrev pub adoption_result : Option Image → StatusResult
  adoption_result none = passed true "No adoption needed or adoption successful" ""
  adoption_result (some image) =
      passed false (concat ("Adopted existing AMI " ∷ image.image_id ∷ [])) ""

  -- `adoptExistingImage` of a manager that may be nil, which is read through.
  abbrev pub adopt_of : Option ManagerPacker → Exec (Held W) (Option Image)
  adopt_of none = panic
  adopt_of (some m) = adopt_existing_image m

  abbrev pub adoption_op : Option ManagerPacker → Exec (Held W) StatusResult
  adoption_op pm (pb, w) =
      if pb.status.last_run_built_image_id == ""
      then handling (adopt_of pm)
          (λ e.
            if none_found e.message
            then pure (passed true "No AMIs found matching the provided tags" "")
            else pure (failed_with e))
          (λ adopted. pure (adoption_result adopted)) (pb, w)
      else (ok (adoption_result none), (pb, w))

  abbrev pub on_held : {S : Type 0} → S × W → W
  on_held (s, w) = w

  abbrev pub with_held : {S : Type 0} → S × W → W → S × W
  with_held (s, _) w = (s, w)

  -- `adoptionProcessor`
  unfoldable pub adoption_processor : Option ManagerPacker → Exec (Held W) StatusResult
  unfolding adopt_existing_image run_with_timeout
  adoption_processor pm = run_with_timeout env on_held with_held (adoption_op pm) "45s"

  -- The part of `LatestAMIDoesNotExistsOrExpired` after the adoption.
  unfoldable pub check_latest_built : Option ManagerPacker → Duration → Exec (Held W) StatusResult
  check_latest_built none duration = panic
  check_latest_built (some m) duration = do
    am ← outside (Ami.new env m.region)
    pb ← read_pb
    tags ← outside (build_tags_and_filters pb (options false false false))
    outside (ami_checks env am tags duration packer_builder_check)

  -- `LatestAMIDoesNotExistsOrExpired`; a nil manager is read through by the adoption, unless an image
  -- was built already, and by the check.
  unfoldable pub latest_ami_does_not_exist_or_expired :
      Option ManagerPacker → Duration → Exec (Held W) StatusResult
  latest_ami_does_not_exist_or_expired pm duration = do
    adopted ← adoption_processor pm
    if adopted.success then check_latest_built pm duration else pure adopted
