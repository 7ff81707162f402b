-- ===== src/Controller/Reconcile/Passes.antt =====
-- packerbuilder_controller.go, manager.go: which checks passed where `performFlightChecks` says so.
use opsy_ami_operator.Prelude.{
  Bool-cases, true, false, Option, some, none, [], ◌∷◌, ◌≡◌, refl, sym, ◌∙◌, inl, inr, arith,
  if◌then◌else◌,
}
use opsy_ami_operator.Go.{Exec, Result, ok, panics, pure, panic, ◌>>=◌, ◌>>◌}
use opsy_ami_operator.Go.Outcomes.{bind_after, bind-eq-ok}
use opsy_ami_operator.Api.{PackerBuilder}
use opsy_ami_operator.Api.Commands.{StringMap}
use opsy_ami_operator.Api.Conditions.{Duration, or_zero}
use opsy_ami_operator.Env.{Env}
use opsy_ami_operator.Status.{StatusResult}
use opsy_ami_operator.Ami
use opsy_ami_operator.Ami.{ManagerAmi, ami_checks, base_ami_exists, packer_builder_check}
use opsy_ami_operator.Packer.Manager
use opsy_ami_operator.Packer.Manager.{ManagerPacker, Held, outside, read_pb, write_pb}
use opsy_ami_operator.Packer.Active.{active_build_check}
use opsy_ami_operator.Packer.Images.{
  latest_ami_does_not_exist_or_expired, adoption_processor, check_latest_built,
  build_tags_and_filters, options,
}
use opsy_ami_operator.Controller.Handlers.{
  ami_filters_of, set_image_type, process_flight_check_results, perform_flight_checks,
}

module _ {W : Type 0} (env : Env W) where
  -- The part of the run that checks the latest image of the builder, from its world on: nothing was
  -- adopted, and the check with the tags of the builder, as it is then, passed.
  pub record LatestPasses (pm : Option ManagerPacker) (duration : Duration) (pb : PackerBuilder)
      (w : W) : Type 0 where
    pub m : ManagerPacker
    pub adopted : StatusResult
    pub pb₁ : PackerBuilder
    pub w₁ : W
    pub am : Option ManagerAmi
    pub w₂ : W
    pub tags : StringMap
    pub w₃ : W
    pub latest : StatusResult
    pub w₄ : W
    pub managed : pm ≡ some m
    pub adoption : adoption_processor env pm (pb, w) ≡ (ok adopted, (pb₁, w₁))
    pub adoption_passed : adopted.success ≡ true
    pub ami_made : Ami.new env m.region w₁ ≡ (ok am, w₂)
    pub tagged : build_tags_and_filters env pb₁ (options false false false) w₂ ≡ (ok tags, w₃)
    pub latest_checked : ami_checks env am tags duration packer_builder_check w₃ ≡ (ok latest, w₄)
    pub latest_passed : latest.success ≡ true

  -- `pb.Spec.TimeOuts.ExpiresIn`, 0 where it cannot be parsed.
  abbrev pub valid_for : PackerBuilder → Duration
  valid_for pb = or_zero (env.parse_duration pb.spec.time_outs.expires_in)

  -- The run of the checks of a builder from a world on: after the check of the active builds, the
  -- check of the base image with the builder's filters and the check of its latest image passed.
  pub record AllPass (pm : Option ManagerPacker) (pb : PackerBuilder) (w : W) : Type 0 where
    pub active : StatusResult
    pub w₁ : W
    pub am : Option ManagerAmi
    pub w₂ : W
    pub packer : Option ManagerPacker
    pub w₃ : W
    pub base : StatusResult
    pub w₄ : W
    pub active_checked :
        active_build_check env pm pb.meta.namespace pb.meta.name w ≡ (ok active, w₁)
    pub active_passed : active.success ≡ true
    pub ami_made : Ami.new env pb.spec.region w₁ ≡ (ok am, w₂)
    pub packer_made : Manager.new env pb.spec.region w₂ ≡ (ok packer, w₃)
    pub base_checked :
        base_ami_exists env am (ami_filters_of pb.spec.ami_filters) w₃ ≡ (ok base, w₄)
    pub base_passed : base.success ≡ true
    pub latest : LatestPasses packer (valid_for pb) (set_image_type pb) w₄

  -- An action of the world that succeeded beside a builder, which it leaves alone.
  outside-eq-ok :
      {A B : Type 0} (m : Exec W A) (f : A → Exec (Held W) B) (pb : PackerBuilder) (w : W)
      (u : Held W) (b : B)
      → (outside m >>= f) (pb, w) ≡ (ok b, u)
      → (a : A) × (w' : W) × (m w ≡ (ok a, w')) × (f a (pb, w') ≡ (ok b, u))
  outside-eq-ok m f pb w u b h =
      let (a, t, e, rest) = bind-eq-ok (outside m) f (pb, w) u b h in
      (a, t.1, (λ i. ((e i).0, (e i).1.1)), (λ i. f a ((e i).1.0, t.1)) ∙ rest)

  panics_not : {S A : Type 0} {s t : S} {a : A} → ◌≡◌ {A = Result A × S} (panics, s) (ok a, t) → ⊥
  panics_not h = ground arith

  check_latest_built-eq-ok :
      (pm : Option ManagerPacker) (duration : Duration) (pb : PackerBuilder) (w : W) (u : Held W)
      (r : StatusResult)
      → check_latest_built env pm duration (pb, w) ≡ (ok r, u)
      → (m : ManagerPacker) × (am : Option ManagerAmi) × (w₁ : W) × (tags : StringMap) × (w₂ : W)
        × (w₃ : W) × (pm ≡ some m)
        × (Ami.new env m.region w ≡ (ok am, w₁))
        × (build_tags_and_filters env pb (options false false false) w₁ ≡ (ok tags, w₂))
        × (ami_checks env am tags duration packer_builder_check w₂ ≡ (ok r, w₃))
  unfolding check_latest_built panic
  check_latest_built-eq-ok none duration pb w u r h = absurd (panics_not h)
  check_latest_built-eq-ok (some m) duration pb w u r h =
      let (am, w₁, made, h₁) = outside-eq-ok (Ami.new env m.region) _ pb w u r h in
      let h₂ = sym (bind_after read_pb _ (pb, w₁) (pb, w₁) pb refl) ∙ h₁ in
      let (tags, w₂, tagged, h₃) =
        outside-eq-ok (build_tags_and_filters env pb (options false false false)) _ pb w₁ u r h₂ in
      (m, am, w₁, tags, w₂, u.1, refl, made, tagged, (λ i. ((h₃ i).0, (h₃ i).1.1)))

  unexpired :
      (pm : Option ManagerPacker) (duration : Duration) (pb : PackerBuilder) (w : W) (u : Held W)
      (r : StatusResult)
      → latest_ami_does_not_exist_or_expired env pm duration (pb, w) ≡ (ok r, u)
      → r.success ≡ true
      → LatestPasses pm duration pb w
  unfolding latest_ami_does_not_exist_or_expired panic pure
  unexpired pm duration pb w u r h good =
      let (adopted, t₁, done, h₁) = bind-eq-ok (adoption_processor env pm) _ (pb, w) u r h in
      elim (Bool-cases adopted.success) [
        | inl passing ↦ checked_latest pm adopted t₁.0 t₁.1 done passing (
            (λ i. (if sym passing i then check_latest_built env pm duration else pure adopted) t₁)
            ∙ h₁)
        | inr failing ↦ absurd (refused adopted t₁ failing h₁)
      ]
    where
      refused :
          (adopted : StatusResult) (t₁ : Held W)
          → adopted.success ≡ false
          → (if adopted.success then check_latest_built env pm duration else pure adopted) t₁
            ≡ (ok r, u)
          → ⊥
      refused adopted t₁ failing h₁ = ground (arith, good)

      checked_latest :
          (pm : Option ManagerPacker) (adopted : StatusResult) (pb₁ : PackerBuilder) (w₁ : W)
          → adoption_processor env pm (pb, w) ≡ (ok adopted, (pb₁, w₁))
          → adopted.success ≡ true
          → check_latest_built env pm duration (pb₁, w₁) ≡ (ok r, u)
          → LatestPasses pm duration pb w
      checked_latest pm adopted pb₁ w₁ done passing h₁ =
          let (m, am, w₂, tags, w₃, w₄, managed, made, tagged, checked) =
            check_latest_built-eq-ok pm duration pb₁ w₁ u r h₁ in
          record {
            m = m;
            adopted = adopted;
            pb₁ = pb₁;
            w₁ = w₁;
            am = am;
            w₂ = w₂;
            tags = tags;
            w₃ = w₃;
            latest = r;
            w₄ = w₄;
            managed = managed;
            adoption = done;
            adoption_passed = passing;
            ami_made = made;
            tagged = tagged;
            latest_checked = checked;
            latest_passed = good;
          }

  -- Both results passed where all did.
  both :
      (base latest : StatusResult) (t u : Held W)
      → (read_pb >>= λ pb'.
            let (all, pb'') = process_flight_check_results (base ∷ latest ∷ []) pb' in
            write_pb (λ _. pb'') >> pure all)
          t
        ≡ (ok true, u)
      → (base.success ≡ true) × (latest.success ≡ true)
  unfolding process_flight_check_results pure ◌>>=◌
  both base latest t u h = ground arith

  -- What the checks of the images did.
  pub performed :
      (pm : Option ManagerPacker) (pb : PackerBuilder) (w w₁ : W) (u : Held W)
      (active : StatusResult)
      → active_build_check env pm pb.meta.namespace pb.meta.name w ≡ (ok active, w₁)
      → active.success ≡ true
      → perform_flight_checks env (valid_for pb) (pb, w₁) ≡ (ok true, u)
      → AllPass pm pb w
  unfolding perform_flight_checks
  performed pm pb w w₁ u active checked passing h =
      let region = pb.spec.region in
      let pb' = set_image_type pb in
      let filters = ami_filters_of pb.spec.ami_filters in
      let (am, w₂, made, h₁) =
        outside-eq-ok (Ami.new env region) _ pb w₁ u true
          (sym (bind_after read_pb _ (pb, w₁) (pb, w₁) pb refl) ∙ h) in
      let (packer, w₃, made', h₂) = outside-eq-ok (Manager.new env region) _ pb w₂ u true h₁ in
      let h₃ = sym (bind_after (write_pb set_image_type) _ (pb, w₃) (pb', w₃) tt refl) ∙ h₂ in
      let (base, w₄, based, h₄) =
        outside-eq-ok (base_ami_exists env am filters) _ pb' w₃ u true h₃ in
      let (latest, t, dated, h₅) =
        bind-eq-ok (latest_ami_does_not_exist_or_expired env packer (valid_for pb)) _ (pb', w₄) u
          true h₄ in
      let (good, good') = both base latest t u h₅ in
      record {
        active = active;
        w₁ = w₁;
        am = am;
        w₂ = w₂;
        packer = packer;
        w₃ = w₃;
        base = base;
        w₄ = w₄;
        active_checked = checked;
        active_passed = passing;
        ami_made = made;
        packer_made = made';
        base_checked = based;
        base_passed = good;
        latest = unexpired packer (valid_for pb) pb' w₄ t latest dated good';
      }
