-- ===== src/Ami/Checks.antt =====
-- ami.go: when the checks let a build start.
use opsy_ami_operator.Prelude.{
  ◌≡◌, refl, sym, ◌∙◌, ◌↔◌, inl, inr, Bool, true, false, none, some, List, [], ◌∷◌, arith,
  Bool-cases, if◌then◌else◌,
}
use opsy_ami_operator.Prelude.Int.{ltb_ℤ, ◌+ℤ◌}
use opsy_ami_operator.Go.{
  Exec, Result, ok, err, panics, Result-cases, ◌>>=◌, total, pure, handling, map_error, lift,
}
use opsy_ami_operator.Api.Commands.{StringMap}
use opsy_ami_operator.Api.Conditions.{Time, Duration}
use opsy_ami_operator.Env.{Env}
use opsy_ami_operator.Env.Aws.{Image}
use opsy_ami_operator.Status.{StatusResult}
use opsy_ami_operator.Ami.{
  AmiTypeCheck, passed, ManagerAmi, packer_builder_check, find_latest_image, is_image_active,
  is_image_expired, no_valid_images, run_with_timeout, describe_images_with_filters, ami_checks_op,
  build_filters, check_latest, ami_checks,
}

module _ {W : Type 0} (env : Env W) where
  -- The latest image at `w` has not expired and is tagged as active.
  abbrev pub HoldsBack : Duration → List Image → W → Type 0
  HoldsBack duration images w =
      (latest : Image) × (created : Time) × (find_latest_image env.parse_rfc3339 images
        ≡ ok (latest, created))
      × (ltb_ℤ (created +ℤ duration) (env.now w).0 ≡ false)
      × (is_image_active latest ≡ true)

  -- What a check answers at images, as a table over the latest image.
  abbrev answer : AmiTypeCheck → Duration → Result (Image × Time) → W → Bool
  answer check duration (ok (latest, created)) w =
      if ltb_ℤ (created +ℤ duration) (env.now w).0
      then check.image_expired
      else if is_image_active latest
      then check.image_active
      else true
  answer check duration (err _) w = check.image_not_found
  answer check duration panics w = true

  check_latest-answer :
      (check : AmiTypeCheck) (duration : Duration) (latest : Image) (created : Time) (w : W)
      → (r : StatusResult) × ((check_latest env check duration latest created w).0 ≡ ok r)
        × (r.success ≡ answer check duration (ok (latest, created)) w)
        × (r.error ≡ none)
  unfolding check_latest is_image_expired ◌>>=◌ total pure handling map_error lift
  check_latest-answer check duration latest created w =
      elim (Bool-cases (ltb_ℤ (created +ℤ duration) (env.now w).0)) [
        | inl old ↦ rw old (passed _ _ _, refl, refl, refl)
        | inr new ↦ rw new (elim (Bool-cases (is_image_active latest)) [
          | inl active ↦ rw active (passed _ _ _, refl, refl, refl)
          | inr idle ↦ rw idle (passed _ _ _, refl, refl, refl)
        ])
      ]

  -- A result with no error is the operation's: it was not cut off by the deadline.
  run_with_timeout-delivered :
      (op : Exec W StatusResult) (w : W) {r : StatusResult}
      → (run_with_timeout env op w).0 ≡ ok r
      → r.error ≡ none
      → (op w).0 ≡ ok r
  unfolding run_with_timeout ◌>>=◌ total pure handling map_error lift
  run_with_timeout-delivered op w returned delivered = ground arith

  find_none : find_latest_image env.parse_rfc3339 [] ≡ err (no_valid_images env.parse_rfc3339)
  unfolding find_latest_image
  find_none = refl

  op-answer :
      (m : ManagerAmi) (tags : StringMap) (duration : Duration) (check : AmiTypeCheck)
      (images : List Image) {w w₁ : W}
      → env.describe_images (build_filters tags) w ≡ (ok images, w₁)
      → {r : StatusResult} → (ami_checks_op env (some m) tags duration check w).0 ≡ ok r
      → r.success ≡ answer check duration (find_latest_image env.parse_rfc3339 images) w₁
  unfolding describe_images_with_filters ◌>>=◌ total pure handling map_error lift
  op-answer m tags duration check [] described returned = rw find_none (ground arith)
  op-answer m tags duration check (image ∷ images) {w₁ = w₁} described returned =
      elim (Result-cases (find_latest_image env.parse_rfc3339 (image ∷ images))) [
        | inl ((latest, created), e) ↦
            let (res, at, success, clean) = check_latest-answer check duration latest created w₁ in
            rw e (ground (arith, e, at, success))
        | inr (inl (e, failed)) ↦ rw failed (ground arith)
        | inr (inr failed) ↦ rw failed (ground arith)
      ]

  module _ (m : ManagerAmi) (tags : StringMap) (duration : Duration) (images : List Image)
      {w w₁ : W} (described : env.describe_images (build_filters tags) w ≡ (ok images, w₁))
      {r : StatusResult}
      (returned : (ami_checks env (some m) tags duration packer_builder_check w).0 ≡ ok r)
      (delivered : r.error ≡ none) where
    check_answer :
        r.success
        ≡ answer packer_builder_check duration (find_latest_image env.parse_rfc3339 images) w₁
    unfolding ami_checks ◌>>=◌ total pure handling map_error lift
    check_answer = op-answer m tags duration packer_builder_check images described (
        run_with_timeout-delivered (ami_checks_op env (some m) tags duration packer_builder_check) w
          returned delivered)

    -- When the images at the filters of the tags are these, and the check of a builder returns a
    -- result with no error, it fails exactly when the latest image is fresh and active.
    pub ami_checks-packer_builder_iff : (r.success ≡ false) ↔ HoldsBack duration images w₁
    ami_checks-packer_builder_iff = (
      λ h. held_back (find_latest_image env.parse_rfc3339 images) refl (sym check_answer ∙ h),
      λ (latest, created, found, fresh, active). check_answer ∙ (rw (found, fresh, active) refl),
    )
      where
        held_back :
            (found : Result (Image × Time))
            → find_latest_image env.parse_rfc3339 images ≡ found
            → answer packer_builder_check duration found w₁ ≡ false
            → HoldsBack duration images w₁
        held_back (ok (latest, created)) e h = (latest, created, e, ground arith, ground arith)
        held_back (err _) e h = cc
        held_back panics e h = cc
