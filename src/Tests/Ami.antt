-- ===== src/Tests/Ami.antt =====
-- Runs of ami.go.
use opsy_ami_operator.Prelude.{◌≡◌, refl, ◌↔◌, false, some, [], ◌∷◌}
use opsy_ami_operator.Prelude.Int.{pos, ◌+ℤ◌}
use opsy_ami_operator.Go.{ok, ◌>>=◌, pure, total, handling, map_error, lift}
use opsy_ami_operator.Api.Conditions.{Time}
use opsy_ami_operator.Env.Aws.{Image}
use opsy_ami_operator.Status.{StatusResult}
use opsy_ami_operator.Ami.{
  ManagerAmi, passed, find_latest_image, ami_checks, packer_builder_check,
  describe_images_with_filters, image_timestamp, timestamp_of_tags, latest_from, is_image_active,
  is_image_expired, check_latest, run_with_timeout, build_filters,
}
use opsy_ami_operator.Ami.Latest.{IsFirstLatest, find_latest_image-first, find_latest_image_total}
use opsy_ami_operator.Ami.Checks.{HoldsBack, ami_checks-packer_builder_iff}
use opsy_ami_operator.Tests.World.{test_env, old_image, new_image, two_images, parse_seconds}

found : find_latest_image parse_seconds two_images ≡ ok (new_image, pos 2)
unfolding find_latest_image image_timestamp timestamp_of_tags latest_from
found = refl

find_latest_image-first_example : IsFirstLatest parse_seconds new_image (pos 2) two_images
find_latest_image-first_example = find_latest_image-first parse_seconds two_images found

find_latest_image_total_example :
    (r : Image × Time) × (find_latest_image parse_seconds two_images ≡ ok r)
unfolding image_timestamp timestamp_of_tags
find_latest_image_total_example =
    find_latest_image_total parse_seconds old_image (new_image ∷ [])
      ((pos 1, refl), ((pos 2, refl), tt))

abbrev manager : ManagerAmi
manager = record { region = "eu-west-1" }

abbrev held_back : StatusResult
held_back = passed false "Latest Created AMI ami-2 is active" "ami-2"

returned : (ami_checks test_env (some manager) [] (pos 60) packer_builder_check tt).0 ≡ ok held_back
unfolding ami_checks find_latest_image image_timestamp timestamp_of_tags latest_from is_image_active
    is_image_expired check_latest run_with_timeout describe_images_with_filters ◌>>=◌ pure total
    handling map_error lift build_filters ◌+ℤ◌
returned = refl

ami_checks-packer_builder_iff_example :
    (held_back.success ≡ false) ↔ HoldsBack test_env (pos 60) two_images tt
ami_checks-packer_builder_iff_example =
    ami_checks-packer_builder_iff test_env manager [] (pos 60) two_images refl returned refl
