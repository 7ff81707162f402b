-- ===== src/Controller/Reconcile/Checked.antt =====
-- packerbuilder_controller.go, manager.go: which image checks passed where the flight check starts a
-- new build.
use opsy_ami_operator.Prelude.{
  String, Bool, true, false, Option, [], ◌∷◌, ◌≡◌, ◌≢◌, refl, arith, if◌then◌else◌,
}
use opsy_ami_operator.Prelude.Texts.{concat}
use opsy_ami_operator.Go.{Error, Result, ok, err, panics, pure, handling}
use opsy_ami_operator.Go.Evolves.{Evolves, Evolves-pure, Evolves-bind}
use opsy_ami_operator.Api.Conditions.{or_zero}
use opsy_ami_operator.Api.States.{PackerBuilderState}
use opsy_ami_operator.Opsy.{get_current_state}
use opsy_ami_operator.Env.{Env}
use opsy_ami_operator.Packer.Manager.{ManagerPacker, Held}
use opsy_ami_operator.Controller.State.{Sys, held, requeue_in}
use opsy_ami_operator.Controller.Update.{transition_to_error_state}
use opsy_ami_operator.Controller.Handlers.{
  perform_flight_checks, check_images, start_creation, flight_check,
}
use opsy_ami_operator.Controller.Avoids.{Avoids, avoids_order, reconcile_update-Avoids}
use opsy_ami_operator.Controller.Reconcile.Passed.{active_passed}
use opsy_ami_operator.Controller.Reconcile.Passes.{AllPass, valid_for, performed}

module _ {W : Type 0} (env : Env W) where
  checks_avoid :
      (prefix : String) (e : Error)
      → Evolves
          (Avoids {W = W} PackerBuilderState.job_creation)
          (transition_to_error_state env (concat (prefix ∷ e.message ∷ [])))
  unfolding transition_to_error_state
  checks_avoid prefix e =
      Evolves-bind (avoids_order PackerBuilderState.job_creation) _ _
        (reconcile_update-Avoids env PackerBuilderState.job_creation _ _ _ _ _ (λ h. ground arith))
        (λ _. Evolves-pure (avoids_order PackerBuilderState.job_creation) _)

  checked :
      (s : Sys W) (id : String)
      → get_current_state s.runner id ≢ PackerBuilderState.job_creation
      → get_current_state (check_images env s.pb s).1.runner id ≡ PackerBuilderState.job_creation
      → (u : Held W) × (perform_flight_checks env (valid_for env s.pb) (s.pb, s.world)
          ≡ (ok true, u))
  unfolding handling held pure
  checked s id before after =
      go (perform_flight_checks env (valid_for env s.pb) (s.pb, s.world)) refl after
    where
      go :
          (x : Result Bool × Held W)
          → perform_flight_checks env (valid_for env s.pb) (s.pb, s.world) ≡ x
          → get_current_state
              (handling
                (held (λ _. x))
                (λ e.
                  transition_to_error_state env
                    (concat ("Error performing flight checks: " ∷ e.message ∷ [])))
                (λ passed.
                  if passed
                  then start_creation env
                  else pure (
                      requeue_in
                        (or_zero (env.parse_duration s.pb.spec.time_outs.controller_timer))))
                s).1.runner
              id
            ≡ PackerBuilderState.job_creation
          → (u : Held W) × (perform_flight_checks env (valid_for env s.pb) (s.pb, s.world)
              ≡ (ok true, u))
      go (ok true, u) e h = (u, e)
      go (ok false, u) e h = absurd (before h)
      go (err e', u) e h = absurd (
          before (
            (checks_avoid "Error performing flight checks: " e').at
              (record s { pb = u.0; world = u.1 }) id h))
      go (panics, u) e h = absurd (before h)

  -- The flight check brings a build to the creation of its job only where the checks that it ran from
  -- its world on passed: that of the active builds, BaseAMIExists with the filters of the builder, and,
  -- where there was no image to adopt, AMIChecks with the tags that were then built for the builder and
  -- the time after which its images expire.
  pub flight_check-AreChecked :
      (pm : Option ManagerPacker) (s : Sys W) (id : String)
      → get_current_state s.runner id ≢ PackerBuilderState.job_creation
      → get_current_state (flight_check env pm s).1.runner id ≡ PackerBuilderState.job_creation
      → AllPass env pm s.pb s.world
  flight_check-AreChecked pm s id before after =
      let (r, w, done, passing, created) = active_passed env pm s id before after in
      let (u, performed') = checked (record s { world = w }) id before created in
      performed env pm s.pb s.world w u r done passing performed'
