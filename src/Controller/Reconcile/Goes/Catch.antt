-- ===== src/Controller/Reconcile/Goes/Catch.antt =====
-- packerbuilder_controller.go: to which states a run of `catchRek` brings a build.
use opsy_ami_operator.Prelude.{true, not, Option, ◌≡◌, refl, ◌∙◌, inl, eq_iff}
use opsy_ami_operator.Go.{Exec, Result, ok, err, panics, pure, when, ◌>>=◌}
use opsy_ami_operator.Go.Outcomes.{handling_after}
use opsy_ami_operator.Api.States.{PackerBuilderState, state_beq}
use opsy_ami_operator.Opsy.{get_current_state}
use opsy_ami_operator.Env.{Env}
use opsy_ami_operator.Packer.Manager
use opsy_ami_operator.Packer.Manager.{ManagerPacker, Held}
use opsy_ami_operator.Controller.State.{Sys, ReconcileResult, in_world}
use opsy_ami_operator.Controller.Update.{set_state, or_error_state}
use opsy_ami_operator.Controller.Reconcile.{dispatch, current_state, sync_runner, catch_rek}
use opsy_ami_operator.Controller.Reconcile.Goes.{Brings}
use opsy_ami_operator.Controller.Reconcile.Goes.Handlers.{dispatch-Evolves}

module _ {W : Type 0} (env : Env W) where
  state_beq_same : (n : PackerBuilderState) → state_beq n n ≡ true
  state_beq_same PackerBuilderState.initial = refl
  state_beq_same PackerBuilderState.flight_checks = refl
  state_beq_same PackerBuilderState.job_creation = refl
  state_beq_same PackerBuilderState.job_running = refl
  state_beq_same PackerBuilderState.job_completed = refl
  state_beq_same PackerBuilderState.job_failed = refl
  state_beq_same PackerBuilderState.ami_created = refl
  state_beq_same PackerBuilderState.error = refl
  state_beq_same (PackerBuilderState.other x) = (eq_iff x x).1 refl

  sync_runner_kept :
      (s : Sys W)
      → get_current_state s.runner s.pb.status.build_id ≡ s.pb.status.state
      → sync_runner env s ≡ (ok tt, s)
  unfolding sync_runner ◌>>=◌ when pure
  sync_runner_kept s at =
      (λ i. when (not (state_beq (at i) s.pb.status.state)) (set_state env) s)
      ∙ (λ i. when (not (state_beq_same s.pb.status.state i)) (set_state env) s)

  -- `catchRek` once the manager is made.
  abbrev dispatched : Option ManagerPacker → Exec (Sys W) ReconcileResult
  dispatched pm =
      or_error_state env "failed to update state: " (sync_runner env)
        (λ _. current_state env >>= λ current. dispatch env current pm)

  dispatched-Brings :
      (pm : Option ManagerPacker) (s : Sys W)
      → get_current_state s.runner s.pb.status.build_id ≡ s.pb.status.state
      → Brings s.pb.status.state s.runner (dispatched pm s).1.runner
  unfolding ◌>>=◌
  dispatched-Brings pm s at =
      let same =
        handling_after (sync_runner env) _
          (λ _. current_state env >>= λ current. dispatch env current pm) s s tt
          (sync_runner_kept s at)
        ∙ (λ i. dispatch env (at i) pm s) in
      coe 1 0 (i. Brings s.pb.status.state s.runner (same i).1.runner)
        ((dispatch-Evolves env s.pb.status.state pm).at s)

  -- Where the runner has the state of the builder, a run of `catchRek`, whatever its outcome, leaves
  -- each build in its state or brings it to one where the work of the builder's state goes: from
  -- Initial to the checks, from the checks to the creation of the job or to the job that runs already,
  -- from the creation to the running job, from there to the completed job, from there to the created
  -- image, from there and from the error state to Initial, and from any state to the error state.
  pub catch_rek-Brings :
      (s : Sys W)
      → get_current_state s.runner s.pb.status.build_id ≡ s.pb.status.state
      → Brings s.pb.status.state s.runner (catch_rek env s).1.runner
  unfolding catch_rek in_world ◌>>=◌
  catch_rek-Brings s at = go (Manager.new env s.pb.spec.region s.world)
    where
      go :
          (x : Result (Option ManagerPacker) × W)
          → Brings s.pb.status.state s.runner ((in_world (λ _. x) >>= dispatched) s).1.runner
      go (ok pm, w) = dispatched-Brings pm (record s { world = w }) at
      go (err e, w) = λ id. inl refl
      go (panics, w) = λ id. inl refl
