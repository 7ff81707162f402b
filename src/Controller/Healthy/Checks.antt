-- ===== src/Controller/Healthy/Checks.antt =====
-- packerbuilder_controller.go: from the initial state to the creation of the job, in a world in
-- which nothing stands in the way.
use opsy_ami_operator.Prelude.{true, false, some, none, [], ◌∷◌, ◌≡◌, refl, ◌∙◌, if◌then◌else◌}
use opsy_ami_operator.Go.{Exec, ok, pure, ◌>>=◌, ◌>>◌}
use opsy_ami_operator.Go.Outcomes.{bind_after, handling_after}
use opsy_ami_operator.Api.{PackerBuilder}
use opsy_ami_operator.Api.Conditions.{Duration, OpsyConditionType, or_zero}
use opsy_ami_operator.Api.States.{PackerBuilderState, LastRunStatus}
use opsy_ami_operator.Opsy.{get_current_state}
use opsy_ami_operator.Opsy.Graph.{check, create}
use opsy_ami_operator.Env.{Env}
use opsy_ami_operator.Ami
use opsy_ami_operator.Ami.{base_ami_exists}
use opsy_ami_operator.Packer.Manager
use opsy_ami_operator.Packer.Manager.{ManagerPacker, Held, outside, read_pb, write_pb}
use opsy_ami_operator.Packer.Active.{active_build_check}
use opsy_ami_operator.Packer.Images.{latest_ami_does_not_exist_or_expired}
use opsy_ami_operator.Controller.State.{Sys, held, in_world, set_status, requeue_in}
use opsy_ami_operator.Controller.Handlers.{
  pb_of, too_many_failures, set_counters, start_checks, start_creation, check_images, join_running,
  set_image_type, ami_filters_of, process_flight_check_results, perform_flight_checks, flight_check,
  init,
}
use opsy_ami_operator.Controller.Reconcile.{dispatch, catch_rek}
use opsy_ami_operator.Controller.Healthy.{IsHealthy, IsAt, IsSaved, Resources, resources, as_stored}
use opsy_ami_operator.Controller.Healthy.Moves.{Moves, manager_made, dispatched, went_to}
use opsy_ami_operator.Controller.Healthy.Fresh.{IsFresh, outside_after, no_active_build}
use opsy_ami_operator.Controller.Healthy.Images.{
  no_filters, no_amis, ami_made, base_skipped, latest_checked,
}

-- A call on the builder and the world, and one on the world, that succeed.
pub held_after :
    {W A : Type 0} (m : Exec (Held W) A) (s : Sys W) (pb : PackerBuilder) (w : W) (a : A)
    → m (s.pb, s.world) ≡ (ok a, (pb, w))
    → held m s ≡ (ok a, record s { pb = pb; world = w })
unfolding held
held_after m s pb w a h = λ i. ((h i).0, record s { pb = (h i).1.0; world = (h i).1.1 })

pub in_world_after :
    {W A : Type 0} (m : Exec W A) (s : Sys W) (w : W) (a : A)
    → m s.world ≡ (ok a, w)
    → in_world m s ≡ (ok a, record s { world = w })
unfolding in_world
in_world_after m s w a h = λ i. ((h i).0, record s { world = (h i).1 })

module _ {W : Type 0} (env : Env W) (healthy : IsHealthy env) where
  started :
      (s : Sys W)
      → too_many_failures env s.pb ≡ false
      → init env s
        ≡ start_checks env (record s { pb = record s.pb { status = set_counters env s.pb.status } })
  unfolding init set_status ◌>>=◌
  started s few i =
      (if few i
          then pure (requeue_in (or_zero (env.parse_duration s.pb.spec.time_outs.controller_timer)))
          else start_checks env)
        (record s { pb = record s.pb { status = set_counters env s.pb.status } })

  pub initial_to_checks :
      (res : Resources) (s : Sys W)
      → IsAt res PackerBuilderState.initial s
      → too_many_failures env s.pb ≡ false
      → Moves env (as_stored healthy res) PackerBuilderState.flight_checks (catch_rek env) s
  unfolding dispatch
  initial_to_checks res s (current, kept, state) few =
      let (m, w, same) =
        dispatched env healthy res PackerBuilderState.initial s refl (current, kept, state) in
      let at = (λ i. get_current_state s.runner ((kept i).0)) ∙ current in
      let s₁ = record s { world = w } in
      let s₂ = record s₁ { pb = record s.pb { status = set_counters env s.pb.status } } in
      let (t, h, there) =
        went_to env healthy PackerBuilderState.flight_checks "Transitioning to FlightChecks"
          LastRunStatus.running OpsyConditionType.flight_check_started
          "Failed to transition to FlightChecks state: " s₂ (check at refl) in
      (
        t,
        same ∙ started s₁ few ∙ h,
        coe 0 1 (i. IsSaved env (as_stored healthy (kept i)) PackerBuilderState.flight_checks t)
            there,
      )

  module _ (fresh : IsFresh env) where
    -- The results of the two checks are noted: neither names a base image.
    noted :
        (pb : PackerBuilder) (w : W)
        → (read_pb >>= λ pb'.
              let (all, pb'') = process_flight_check_results (no_filters ∷ no_amis ∷ []) pb' in
              write_pb (λ _. pb'') >> pure all)
            (pb, w)
          ≡ (ok true, (pb, w))
    unfolding process_flight_check_results pure ◌>>=◌
    noted pb w = refl

    performed :
        (d : Duration) (pb : PackerBuilder) (w : W)
        → pb.spec.ami_filters ≡ none
        → (w' : W) × (perform_flight_checks env d (pb, w) ≡ (ok true, (set_image_type pb, w')))
    unfolding perform_flight_checks
    performed d pb w unfiltered =
        let region = pb.spec.region in
        let (am, w₁, ami) = ami_made env healthy fresh region w in
        let (pm, w₂, packer) = manager_made env healthy region w₁ in
        let pb' = set_image_type pb in
        let w₃ = (env.deadline_first w₂).1 in
        let (w₄, latest) = latest_checked env healthy fresh pm d pb' w₃ in
        let base = base_ami_exists env (some am) in
        (
          w₄,
          bind_after read_pb _ (pb, w) (pb, w) pb refl
              ∙ bind_after (outside (Ami.new env region)) _ (pb, w) (pb, w₁) (some am)
                  (outside_after (Ami.new env region) pb w w₁ (some am) ami)
              ∙ bind_after (outside (Manager.new env region)) _ (pb, w₁) (pb, w₂) (some pm)
                  (outside_after (Manager.new env region) pb w₁ w₂ (some pm) packer)
              ∙ bind_after (write_pb set_image_type) _ (pb, w₂) (pb', w₂) tt refl
              ∙ bind_after (outside (base (ami_filters_of pb.spec.ami_filters))) _ (pb', w₂)
                  (pb', w₃) no_filters
                  (outside_after (base (ami_filters_of pb.spec.ami_filters)) pb' w₂ w₃ no_filters (
                    (λ i. base (ami_filters_of (unfiltered i)) w₂)
                    ∙ base_skipped env healthy fresh (some am) w₂))
              ∙ bind_after (latest_ami_does_not_exist_or_expired env (some pm) d) _ (pb', w₃)
                  (pb', w₄) no_amis latest
              ∙ noted pb' w₄,
        )

    cleared :
        (m : ManagerPacker) (s : Sys W)
        → s.pb.spec.ami_filters ≡ none
        → (w : W) × (flight_check env (some m) s
            ≡ start_creation env (record s { pb = set_image_type s.pb; world = w }))
    unfolding flight_check
    cleared m s unfiltered =
        let (r, w₁, checked, good) =
          no_active_build env healthy fresh m s.pb.meta.namespace s.pb.meta.name s.world in
        let active = active_build_check env (some m) s.pb.meta.namespace s.pb.meta.name in
        let d = or_zero (env.parse_duration s.pb.spec.time_outs.expires_in) in
        let s₁ = record s { world = w₁ } in
        let (w₂, done) = performed d s.pb w₁ unfiltered in
        (
          w₂,
          bind_after pb_of _ s s s.pb refl
              ∙ bind_after (in_world active) _ s s₁ r (in_world_after active s w₁ r checked)
              ∙ (λ i. (if good i then check_images env s.pb else join_running env) s₁)
              ∙ handling_after (held (perform_flight_checks env d)) _ _ s₁
                  (record s { pb = set_image_type s.pb; world = w₂ }) true
                  (held_after (perform_flight_checks env d) s₁ (set_image_type s.pb) w₂ true done),
        )

    pub flight_check-Moves :
        (m : ManagerPacker) (s : Sys W)
        → s.pb.spec.ami_filters ≡ none
        → get_current_state s.runner s.pb.status.build_id ≡ PackerBuilderState.flight_checks
        → Moves env
            (as_stored healthy (resources s.pb))
            PackerBuilderState.job_creation
            (flight_check env (some m))
            s
    flight_check-Moves m s unfiltered current =
        let (w, clear) = cleared m s unfiltered in
        let (t, h, there) =
          went_to env healthy PackerBuilderState.job_creation "Transitioning to JobCreation"
            LastRunStatus.running OpsyConditionType.job_created
            "Failed to transition to JobCreation state: "
            (record s { pb = set_image_type s.pb; world = w }) (create current refl) in
        (t, clear ∙ h, there)

    pub checks_to_creation :
        (res : Resources) (s : Sys W)
        → res.3 ≡ none
        → IsAt res PackerBuilderState.flight_checks s
        → Moves env (as_stored healthy res) PackerBuilderState.job_creation (catch_rek env) s
    unfolding dispatch
    checks_to_creation res s unfiltered (current, kept, state) =
        let (m, w, same) =
          dispatched env healthy res PackerBuilderState.flight_checks s refl
            (current, kept, state) in
        let at = (λ i. get_current_state s.runner ((kept i).0)) ∙ current in
        let (t, h, there) =
          flight_check-Moves m (record s { world = w }) ((λ i. (kept i).3) ∙ unfiltered) at in
        (
          t,
          same ∙ h,
          coe 0 1 (i. IsSaved env (as_stored healthy (kept i)) PackerBuilderState.job_creation t)
              there,
        )
