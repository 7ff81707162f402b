-- ===== src/Controller/Reconcile/Passed.antt =====
-- packerbuilder_controller.go: what the flight check has gone through where it starts a new build.
use opsy_ami_operator.Prelude.{
  Bool, Bool-cases, String, true, Option, ◌≡◌, ◌≢◌, refl, sym, ◌∙◌, inl, inr, arith, if◌then◌else◌,
}
use opsy_ami_operator.Go.{Result, ok, err, panics, ◌>>=◌}
use opsy_ami_operator.Go.Evolves.{Evolves}
use opsy_ami_operator.Api.States.{PackerBuilderState}
use opsy_ami_operator.Opsy.{get_current_state}
use opsy_ami_operator.Env.{Env}
use opsy_ami_operator.Status.{StatusResult}
use opsy_ami_operator.Packer.Manager.{ManagerPacker}
use opsy_ami_operator.Packer.Active.{active_build_check}
use opsy_ami_operator.Controller.State.{Sys, in_world}
use opsy_ami_operator.Controller.Handlers.{flight_check, join_running, check_images}
use opsy_ami_operator.Controller.Avoids.{Avoids, or_error_state-Avoids}

module _ {W : Type 0} (env : Env W) where
  joins-Avoids : Evolves (Avoids {W = W} PackerBuilderState.job_creation) (join_running env)
  joins-Avoids =
      or_error_state-Avoids env PackerBuilderState.job_creation _ _ _ _ _ _ _ (λ e. ground arith)
        (λ e. ground arith)

  -- Where the flight check brings a build to the creation of its job, the check of active builds
  -- passed, and what came after it did so.
  pub active_passed :
      (pm : Option ManagerPacker) (s : Sys W) (id : String)
      → get_current_state s.runner id ≢ PackerBuilderState.job_creation
      → get_current_state (flight_check env pm s).1.runner id ≡ PackerBuilderState.job_creation
      → (r : StatusResult) × (w : W) × (active_build_check env pm s.pb.meta.namespace s.pb.meta.name
            s.world
          ≡ (ok r, w))
        × (r.success ≡ true)
        × (get_current_state (check_images env s.pb (record s { world = w })).1.runner id
            ≡ PackerBuilderState.job_creation)
  unfolding flight_check in_world ◌>>=◌
  active_passed pm s id before after =
      go (active_build_check env pm s.pb.meta.namespace s.pb.meta.name s.world) refl after
    where
      go :
          (x : Result StatusResult × W)
          → active_build_check env pm s.pb.meta.namespace s.pb.meta.name s.world ≡ x
          → get_current_state
              ((in_world (λ _. x) >>= λ r.
                  if r.success then check_images env s.pb else join_running env)
                s).1.runner
              id
            ≡ PackerBuilderState.job_creation
          → (r : StatusResult) × (w : W) × (active_build_check env pm s.pb.meta.namespace
                s.pb.meta.name s.world
              ≡ (ok r, w))
            × (r.success ≡ true)
            × (get_current_state (check_images env s.pb (record s { world = w })).1.runner id
                ≡ PackerBuilderState.job_creation)
      go (ok r, w) e h = elim (Bool-cases r.success) [
        | inl good ↦ (r, w, e, good, at good h)
        | inr bad ↦ absurd (before (joins-Avoids.at (record s { world = w }) id (at bad h)))
      ]
        where
          at :
              {b : Bool}
              → r.success ≡ b
              → get_current_state
                  ((if r.success then check_images env s.pb else join_running env)
                    (record s { world = w })).1.runner
                  id
                ≡ PackerBuilderState.job_creation
              → get_current_state
                  ((if b then check_images env s.pb else join_running env)
                    (record s { world = w })).1.runner
                  id
                ≡ PackerBuilderState.job_creation
          at same h' =
              (λ i.
                get_current_state
                  ((if sym same i then check_images env s.pb else join_running env)
                    (record s { world = w })).1.runner
                  id)
              ∙ h'
      go (err e', w) e h = absurd (before h)
      go (panics, w) e h = absurd (before h)
