-- ===== src/Controller/Reconcile/Restart.antt =====
-- packerbuilder_controller.go: a builder whose image was created before the operator restarted.
use opsy_ami_operator.Prelude.{String, true, not, Option, ◌≡◌, refl, ◌∙◌, ◌∷◌, []}
use opsy_ami_operator.Prelude.Texts.{concat}
use opsy_ami_operator.Go.Outcomes.{bind_after, handling_failed}
use opsy_ami_operator.Go.{Exec, Error, err, ok, ◌>>=◌, when}
use opsy_ami_operator.Api.States.{PackerBuilderState, state_beq}
use opsy_ami_operator.Opsy.{get_current_state, is_valid_transition}
use opsy_ami_operator.Env.{Env}
use opsy_ami_operator.Packer.Manager
use opsy_ami_operator.Packer.Manager.{ManagerPacker}
use opsy_ami_operator.Controller.State.{Sys, in_world, on_runner}
use opsy_ami_operator.Controller.Update.{set_state, transition_to_error_state}
use opsy_ami_operator.Controller.Reconcile.{sync_runner, catch_rek}
use opsy_ami_operator.Controller.Reconcile.Stuck.{refused_set_state}

-- The runner, which starts empty, has no record of the build, whose image was created.
abbrev pub IsForgotten : {W : Type 0} → Sys W → Type 0
IsForgotten s =
    (get_current_state s.runner s.pb.status.build_id ≡ PackerBuilderState.initial)
    × (s.pb.status.state ≡ PackerBuilderState.ami_created)

module _ {W : Type 0} (env : Env W) where
  set_state-IsForgotten : (s : Sys W) → IsForgotten s → (e : Error) × (set_state env s ≡ (err e, s))
  unfolding set_state on_runner is_valid_transition
  set_state-IsForgotten s (h, k) =
      let (e, p) =
        refused_set_state s.pb.status.build_id s.pb.status.state s.runner (rw h (rw k refl)) in
      (e, rw p refl)

  sync_runner-IsForgotten :
      (s : Sys W) → IsForgotten s → (e : Error) × (sync_runner env s ≡ (err e, s))
  unfolding sync_runner ◌>>=◌ when
  sync_runner-IsForgotten s (h, k) =
      let p : not (state_beq (get_current_state s.runner s.pb.status.build_id) s.pb.status.state)
          ≡ true =
        rw h (rw k refl) in
      coe 1 0 (i. (e : Error) × (when (p i) (set_state env) s ≡ (err e, s)))
        (set_state-IsForgotten s (h, k))

  pub entered :
      {A : Type 0} (m : Exec W A) (s : Sys W) (w : W) (a : A)
      → m s.world ≡ (ok a, w)
      → in_world m s ≡ (ok a, record s { world = w })
  unfolding in_world
  entered m s w a h = coe 1 0 (i. in_world (λ _. h i) s ≡ (ok a, record s { world = w })) refl

  -- After a restart, a builder whose image was created is not cleaned up: `catchRek`, once it has
  -- a manager, does nothing but go to the error state, since the runner does not accept the
  -- builder's state.
  pub catch_rek-IsForgotten :
      (s : Sys W) (pm : Option ManagerPacker) (w : W)
      → IsForgotten s
      → Manager.new env s.pb.spec.region s.world ≡ (ok pm, w)
      → (reason : String) × (catch_rek env s
          ≡ transition_to_error_state env reason (record s { world = w }))
  unfolding catch_rek
  catch_rek-IsForgotten s pm w f made =
      let t : Sys W = record s { world = w } in
      let (e, p) = sync_runner-IsForgotten t f in
      (
        concat ("failed to update state: " ∷ e.message ∷ []),
        bind_after _ _ s s s.pb refl
            ∙ bind_after _ _ s t pm (entered (Manager.new env s.pb.spec.region) s w pm made)
            ∙ handling_failed _ _ _ t t e p,
      )
