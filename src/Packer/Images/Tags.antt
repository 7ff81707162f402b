-- ===== src/Packer/Images/Tags.antt =====
-- manager.go: what is read back from the tags of an image that `tagAMI` wrote.
use opsy_ami_operator.Prelude.{String, true, some, List, map, ◌≡◌, refl, sym, ap, ◌∙◌, arith}
use opsy_ami_operator.Packer.Commands.{map_set}
use opsy_ami_operator.Go.{Result, ok, pure, total, ◌>>=◌}
use opsy_ami_operator.Api.{PackerBuilder}
use opsy_ami_operator.Api.Commands.{StringMap}
use opsy_ami_operator.Api.Conditions.{Time}
use opsy_ami_operator.Env.{Env}
use opsy_ami_operator.Env.Aws.{Image, Tag}
use opsy_ami_operator.Ami.{timestamp_of_tags, is_image_active}
use opsy_ami_operator.Packer.Images.{options, fixed_tags, build_tags_and_filters, get_base_ami_id}

-- The tags of an image that has those of a map.
abbrev pub tags_of : StringMap → List Tag
tags_of = map (λ (key, value). record { key = some key; value = some value })

-- What is read from the tags of the image: the base image, whether it is active, and its time.
pub record ReadsBack (parse : String → Result Time) (base : String) (time : Time) (image : Image)
    : Type 0 where
  pub base_image : get_base_ami_id image.tags ≡ ok base
  pub active : is_image_active image ≡ true
  pub timestamp : timestamp_of_tags parse image image.tags ≡ ok time

ok_eq : {A : Type 0} {a b : A} → ok a ≡ ok b → a ≡ b
ok_eq h = ground arith

abbrev pub active_tags : PackerBuilder → String → StringMap
active_tags pb created =
    map_set "status" "active"
      (map_set "create-timestamp" created (fixed_tags pb (options true true true)))

active_tags-base :
    (pb : PackerBuilder) (created : String)
    → get_base_ami_id (tags_of (active_tags pb created)) ≡ ok pb.status.last_run_base_image_id
unfolding get_base_ami_id fixed_tags
active_tags-base pb created = refl

active_tags-active :
    (pb : PackerBuilder) (image : Image) (created : String)
    → is_image_active (record image { tags = tags_of (active_tags pb created) }) ≡ true
unfolding is_image_active fixed_tags
active_tags-active pb image created = refl

active_tags-timestamp :
    (parse : String → Result Time) (pb : PackerBuilder) (image : Image) (created : String)
    (time : Time)
    → parse created ≡ ok time
    → timestamp_of_tags parse image (tags_of (active_tags pb created)) ≡ ok time
unfolding timestamp_of_tags fixed_tags
active_tags-timestamp parse pb image created time h = rw h refl

module _ {W : Type 0} (env : Env W) where
  -- An image with the tags that `tagAMI` builds for a builder is active, names the builder's base
  -- image, and has the time that is parsed from the text of the time at which the tags were built,
  -- which RFC 3339 gives in whole seconds, if that text can be parsed.
  pub build_tags_and_filters-ReadsBack :
      (pb : PackerBuilder) (image : Image) (time seconds : Time) (tags : StringMap) (w w' : W)
      → env.parse_rfc3339 (env.format_time time) ≡ ok seconds
      → (env.now w).0 ≡ time
      → build_tags_and_filters env pb (options true true true) w ≡ (ok tags, w')
      → image.tags ≡ tags_of tags
      → ReadsBack env.parse_rfc3339 pb.status.last_run_base_image_id seconds image
  unfolding build_tags_and_filters pure total ◌>>=◌
  build_tags_and_filters-ReadsBack pb image time seconds tags w w' parses at built tagged =
      let sent : active_tags pb (env.format_time time) ≡ tags =
        (λ i. active_tags pb (env.format_time (sym at i))) ∙ ok_eq (λ i. (built i).0) in
      let same = tagged ∙ ap tags_of (sym sent) in
      record {
        base_image = ap get_base_ami_id same ∙ active_tags-base pb (env.format_time time);
        active =
            ap (λ (l : List Tag). is_image_active (record image { tags = l })) same
            ∙ active_tags-active pb image (env.format_time time);
        timestamp =
            ap (timestamp_of_tags env.parse_rfc3339 image) same
            ∙ active_tags-timestamp env.parse_rfc3339 pb image (env.format_time time) seconds
                parses;
      }
