-- ===== src/Ami.antt =====
-- pkg/manager_ami/ami.go: the images that the filters find, the latest of them, and the checks.
pub mod Latest
pub mod Checks
use opsy_ami_operator.Prelude.{
  String, Bool, true, false, Option, none, some, List, [], ◌∷◌, ◌++◌, map, ◌&&◌, ◌||◌, ◌==◌,
  if◌then◌else◌,
}
use opsy_ami_operator.Prelude.Int.{ℤ, pos, ltb_ℤ, ◌+ℤ◌}
use opsy_ami_operator.Prelude.Texts.{concat, contains}
use opsy_ami_operator.Go.{
  Exec, Error, Result, ok, err, panics, errorf, wrap, and_then, pure, raise, panic, lift, total,
  handling, ◌>>=◌, map_error,
}
use opsy_ami_operator.Api.{AmiFilters}
use opsy_ami_operator.Api.Commands.{StringMap}
use opsy_ami_operator.Api.Conditions.{Time, Duration}
use opsy_ami_operator.Client.{client_aws}
use opsy_ami_operator.Env.{Env}
use opsy_ami_operator.Env.Aws.{Tag, Image, Filter}
use opsy_ami_operator.Status.{StatusResult}

pub record AmiTypeCheck : Type 0 where
  pub image_active : Bool
  pub image_check_pass_default : Bool
  pub image_exist : Bool
  pub image_expired : Bool
  pub image_not_found : Bool

abbrev pub packer_builder_check : AmiTypeCheck
packer_builder_check = record {
  image_active = false;
  image_check_pass_default = false;
  image_exist = false;
  image_expired = true;
  image_not_found = true;
}

abbrev pub ami_refresh_check : AmiTypeCheck
ami_refresh_check = record {
  image_active = true;
  image_check_pass_default = false;
  image_exist = true;
  image_expired = false;
  image_not_found = false;
}

-- A `*ManagerAMI`; nil is `none`.
pub record ManagerAmi : Type 0 where
  pub region : String

abbrev zero_time : Time
zero_time = pos 0

-- `t.IsZero()`
abbrev is_zero : Time → Bool
is_zero (pos n) = ltb_ℤ (pos n) (pos 1)
is_zero _ = false

-- `tag.Key != nil && *tag.Key == key`
abbrev has_key : String → Option String → Bool
has_key key none = false
has_key key (some k) = k == key

-- The error of a parse, as `fmt.Errorf` makes it anew.
abbrev reword : List String → Result Time → Result Time
reword pieces (ok t) = ok t
reword pieces (err e) = err (errorf (pieces ++ (": " ∷ e.message ∷ [])))
reword pieces panics = panics

module _ (parse : String → Result Time) where
  abbrev tag_time : Image → Option String → Result Time
  tag_time image none = panics
  tag_time image (some v) =
      reword ("failed to parse create-timestamp for AMI " ∷ image.image_id ∷ []) (parse v)

  -- The loop over the tags, which stops at the first `create-timestamp`.
  unfoldable pub timestamp_of_tags : Image → List Tag → Result Time
  timestamp_of_tags image [] = ok zero_time
  timestamp_of_tags image (tag ∷ tags) =
      if has_key "create-timestamp" tag.key
      then tag_time image tag.value
      else timestamp_of_tags image tags

  abbrev date_time : Image → Time → Option String → Result Time
  date_time image t none = ok t
  date_time image t (some date) =
      if is_zero t
      then reword ("failed to parse CreationDate for AMI " ∷ image.image_id ∷ []) (parse date)
      else ok t

  -- `imageTimestamp` at the end of a round of the loop of `FindLatestImage`.
  unfoldable pub image_timestamp : Image → Result Time
  image_timestamp image =
      and_then (timestamp_of_tags image image.tags) λ t. date_time image t image.creation_date

  abbrev pub no_valid_images : Error
  no_valid_images = errorf ("no valid images found" ∷ [])

  -- The loop of `FindLatestImage` from the second image on: the latest so far and its time.
  unfoldable pub latest_from : Image → Time → List Image → Result (Image × Time)
  latest_from latest created [] = ok (latest, created)
  latest_from latest created (image ∷ images) =
      and_then (image_timestamp image) λ t.
        if ltb_ℤ created t then latest_from image t images else latest_from latest created images

  -- `FindLatestImage`; at the first image, `i == 0`, the image is taken whatever its time.
  unfoldable pub find_latest_image : List Image → Result (Image × Time)
  find_latest_image [] = err no_valid_images
  find_latest_image (image ∷ images) =
      and_then (image_timestamp image) λ t. latest_from image t images

abbrev has_value : String → Option String → Bool
has_value v none = false
has_value v (some w) = w == v

-- `IsImageActive`
abbrev pub is_active_tag : Tag → Bool
is_active_tag tag = has_key "status" tag.key && has_value "active" tag.value

abbrev any_active : List Tag → Bool
any_active [] = false
any_active (tag ∷ tags) = if is_active_tag tag then true else any_active tags

unfoldable pub is_image_active : Image → Bool
is_image_active image = any_active image.tags

-- `BuildFilters`
unfoldable pub build_filters : StringMap → List Filter
build_filters =
    map (λ (key, value). record { name = concat ("tag:" ∷ key ∷ []); values = value ∷ [] })

abbrev pub passed : Bool → String → String → StatusResult
passed success message name = record {
  success = success;
  message = message;
  name = name;
  error = none;
}

abbrev pub failed_with : Error → StatusResult
failed_with e = record { success = false; message = ""; name = ""; error = some e }

module _ {W : Type 0} (env : Env W) where
  -- `New`
  unfoldable pub new : String → Exec W (Option ManagerAmi)
  new region =
      handling (client_aws env region) (λ _. pure none)
        (λ _. pure (some (record { region = region })))

  -- `DescribeImagesWithFilters`; the client of a nil manager is a nil pointer.
  unfoldable pub describe_images_with_filters :
      Option ManagerAmi → List Filter → Exec W (List Image)
  describe_images_with_filters none filters = panic
  describe_images_with_filters (some m) filters =
      map_error (wrap "failed to describe images") (env.describe_images filters)

  -- `IsImageExpired`
  unfoldable pub is_image_expired : Time → Duration → Exec W Bool
  is_image_expired created duration = do now ← total env.now; pure (ltb_ℤ (created +ℤ duration) now)

  abbrev pub select_result : Bool → StatusResult → StatusResult
  select_result deadline r = if deadline then failed_with env.ctx_err else r

  -- `runWithTimeout`: the operation runs in a goroutine, and the caller takes its result or, if
  -- that is ready first, the end of the context.
  unfoldable pub run_with_timeout : Exec W StatusResult → Exec W StatusResult
  run_with_timeout op = do
    r ← op
    deadline ← total env.deadline_first
    pure (select_result deadline r)

  -- The operation of `AMIChecks` once there is a latest image.
  unfoldable pub check_latest : AmiTypeCheck → Duration → Image → Time → Exec W StatusResult
  check_latest check duration latest created = do
    expired ← is_image_expired created duration
    if expired
        then pure (
            passed check.image_expired
              (concat ("Latest Created AMI " ∷ latest.image_id ∷ " has expired" ∷ []))
              latest.image_id)
        else do
          -- the clock is read again for the time that is left, which is only logged
          _ ← total env.now
          if is_image_active latest
              then pure (
                  passed check.image_active
                    (concat ("Latest Created AMI " ∷ latest.image_id ∷ " is active" ∷ []))
                    latest.image_id)
              else pure (
                  passed true
                    (concat (
                      "Valid AMI "
                      ∷ latest.image_id
                      ∷ " exist and has not expired,however it is not ACTIVE, created at "
                      ∷ env.format_time created
                      ∷ []))
                    latest.image_id)

  -- The branch for a nil image is not reached: `FindLatestImage` returns an image or an error.
  abbrev pub ami_checks_op :
      Option ManagerAmi → StringMap → Duration → AmiTypeCheck → Exec W StatusResult
  ami_checks_op am tags duration check =
      handling (describe_images_with_filters am (build_filters tags))
        (λ e. pure (failed_with (wrap "failed to describe images" e)))
        λ images. elim images [
          | [] ↦ pure (passed check.image_not_found "No AMIs found matching the provided tags" "")
          | image ∷ rest ↦
              handling (lift (find_latest_image env.parse_rfc3339 (image ∷ rest)))
                (λ _. pure (passed check.image_not_found "No AMIs found" ""))
                (λ (latest, created). check_latest check duration latest created)
        ]

  -- `AMIChecks`
  unfoldable pub ami_checks :
      Option ManagerAmi → StringMap → Duration → AmiTypeCheck → Exec W StatusResult
  unfolding describe_images_with_filters run_with_timeout
  ami_checks am tags duration check = run_with_timeout (ami_checks_op am tags duration check)

  abbrev filter_of : AmiFilters → Filter
  filter_of f = record { name = f.name; values = f.values }

  abbrev pub base_ami_exists_op : Option ManagerAmi → List AmiFilters → Exec W StatusResult
  base_ami_exists_op am [] =
      pure (passed true "No AMI filters provided; skipping base AMI check" "")
  base_ami_exists_op am (f ∷ fs) =
      handling (describe_images_with_filters am (map filter_of (f ∷ fs)))
        (λ e.
          if contains e.message "no AMIs found matching the provided filters"
          then pure (passed true "No AMIs found matching the provided tags" "")
          else pure (failed_with e))
        λ images.
          handling (lift (find_latest_image env.parse_rfc3339 images)) (λ e. pure (failed_with e))
            λ (latest, _). pure (
              passed true (concat ("Latest Base AMI found from filters: " ∷ latest.image_id ∷ []))
                latest.image_id)

  -- `BaseAMIExists`
  unfoldable pub base_ami_exists : Option ManagerAmi → List AmiFilters → Exec W StatusResult
  unfolding describe_images_with_filters run_with_timeout
  base_ami_exists am fltrs = run_with_timeout (base_ami_exists_op am fltrs)
