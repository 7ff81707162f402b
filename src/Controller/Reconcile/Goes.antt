-- ===== src/Controller/Reconcile/Goes.antt =====
-- packerbuilder_controller.go: where the work of each state brings a build, for every action that
-- the handlers are built from.
pub mod Handlers
pub mod Catch
use opsy_ami_operator.Prelude.{
  String, Bool, true, false, not, Option, none, some, List, [], ◌∷◌, ◌≡◌, refl, sym, ap, ◌∙◌, ◌⊎◌,
  inl, inr, ◌&&◌, ◌==◌, eq_iff, arith, if◌then◌else◌,
}
use opsy_ami_operator.Go.{
  Exec, Error, Result, ok, err, panics, panic, pure, raise, lift, when, handling, ◌>>=◌,
}
use opsy_ami_operator.Go.Outcomes.{bind_after, handling_after}
use opsy_ami_operator.Go.Evolves.{
  Order, Evolves, Evolves-pure, Evolves-raise, Evolves-when, Evolves-if, Evolves-handling,
  Evolves-bind,
}
use opsy_ami_operator.Api.{PackerBuilder, PackerBuilderStatus}
use opsy_ami_operator.Api.Conditions.{OpsyConditionType, ConditionStatus}
use opsy_ami_operator.Api.States.{PackerBuilderState, LastRunStatus, state_beq}
use opsy_ami_operator.Opsy
use opsy_ami_operator.Opsy.{OpsyRunner, get_current_state, is_valid_transition}
use opsy_ami_operator.Opsy.Graph.{get_current_state-set_state}
use opsy_ami_operator.Env.{Env, WatchEvent, build_result, watch_error, tick, log_line}
use opsy_ami_operator.Packer.Manager
use opsy_ami_operator.Packer.Manager.{ManagerPacker, Held}
use opsy_ami_operator.Packer.Logs.{Found}
use opsy_ami_operator.Controller.State.{Sys, ReconcileResult, held, in_world, set_status}
use opsy_ami_operator.Controller.Avoids.{reconcile_update-Ends}
use opsy_ami_operator.Controller.Update.{
  set_state, reconcile_update, transition_to_error_state, or_error_state,
}
use opsy_ami_operator.Controller.Handlers.{
  cleanup_build, create_build, complete_build, error_build, flight_check, init,
  transition_to_job_completed_state,
}
use opsy_ami_operator.Controller.Watch.{on_tick, on_log_line, on_result, watch_loop, running_build}
use opsy_ami_operator.Controller.Reconcile.{dispatch, current_state, sync_runner, catch_rek}

-- Where the work of a state brings its build: on to the next state of a build, or to the error state.
pub data Goes : PackerBuilderState → PackerBuilderState → Type 0 where
  checks : Goes PackerBuilderState.initial PackerBuilderState.flight_checks
  creates : Goes PackerBuilderState.flight_checks PackerBuilderState.job_creation
  joins : Goes PackerBuilderState.flight_checks PackerBuilderState.job_running
  runs : Goes PackerBuilderState.job_creation PackerBuilderState.job_running
  completes : Goes PackerBuilderState.job_running PackerBuilderState.job_completed
  publishes : Goes PackerBuilderState.job_completed PackerBuilderState.ami_created
  cleans : Goes PackerBuilderState.ami_created PackerBuilderState.initial
  recovers : Goes PackerBuilderState.error PackerBuilderState.initial
  fails : {n : PackerBuilderState} → Goes n PackerBuilderState.error

-- Each build stays where it is, or is where the work of the state brings it.
abbrev pub Brings : PackerBuilderState → OpsyRunner → OpsyRunner → Type 0
Brings n sm sm' =
    (id : String)
    → (get_current_state sm' id ≡ get_current_state sm id) ⊎ Goes n (get_current_state sm' id)

module _ (n : PackerBuilderState) where
  Brings-trans : (a b c : OpsyRunner) → Brings n a b → Brings n b c → Brings n a c
  Brings-trans a b c p q id = elim (q id) [
    | inr g ↦ inr g
    | inl e ↦ elim (p id) [ inl e' ↦ inl (e ∙ e') | inr g ↦ inr (coe 1 0 (i. Goes n (e i)) g) ]
  ]

  Brings-refl : (sm : OpsyRunner) → Brings n sm sm
  Brings-refl sm id = inl refl

  pub set_state-Brings :
      (id : String) (n' : PackerBuilderState) (sm : OpsyRunner)
      → Goes n n'
      → Brings n sm (Opsy.set_state id n' sm).1
  set_state-Brings id n' sm g j =
      go (id == j && is_valid_transition (get_current_state sm id) n')
        (get_current_state-set_state id j n' sm)
    where
      go :
          (b : Bool)
          → get_current_state (Opsy.set_state id n' sm).1 j
            ≡ (if b then n' else get_current_state sm j)
          → (get_current_state (Opsy.set_state id n' sm).1 j ≡ get_current_state sm j)
            ⊎ Goes n (get_current_state (Opsy.set_state id n' sm).1 j)
      go true e = inr (coe 1 0 (i. Goes n (e i)) g)
      go false e = inl e

  module _ {W : Type 0} where
    abbrev RunnerBrings : Sys W → Sys W → Type 0
    RunnerBrings s t = Brings n s.runner t.runner

    abbrev order : Order RunnerBrings
    order = record {
      same = λ s. Brings-refl s.runner;
      both = λ s t u. Brings-trans s.runner t.runner u.runner;
    }

    module _ {A : Type 0} where
      pub held-Evolves : (m : Exec (Held W) A) → Evolves RunnerBrings (held m)
      unfolding held
      held-Evolves m = record { at = λ s. Brings-refl s.runner }

      pub in_world-Evolves : (m : Exec W A) → Evolves RunnerBrings (in_world m)
      unfolding in_world
      in_world-Evolves m = record { at = λ s. Brings-refl s.runner }

      pub pure-Evolves : (a : A) → Evolves RunnerBrings (pure a)
      pure-Evolves = Evolves-pure order

      pub raise-Evolves : (e : Error) → Evolves RunnerBrings (raise {A = A} e)
      raise-Evolves = Evolves-raise order

      pub if-Evolves :
          (b : Bool) (m n : Exec (Sys W) A)
          → Evolves RunnerBrings m
          → Evolves RunnerBrings n
          → Evolves RunnerBrings (if b then m else n)
      if-Evolves = Evolves-if

      pub lift-Evolves : (r : Result A) → Evolves RunnerBrings (lift r)
      unfolding lift
      lift-Evolves r = record { at = λ s. Brings-refl s.runner }

      pub value-Evolves : (f : Sys W → A) → Evolves RunnerBrings (λ s. (ok (f s), s))
      value-Evolves f = record { at = λ s. Brings-refl s.runner }

      module _ {B : Type 0} where
        pub bind-Evolves :
            (m : Exec (Sys W) A) (rest : A → Exec (Sys W) B)
            → Evolves RunnerBrings m
            → ((a : A) → Evolves RunnerBrings (rest a))
            → Evolves RunnerBrings (m >>= rest)
        bind-Evolves = Evolves-bind order

        pub handling-Evolves :
            (m : Exec (Sys W) A) (handler : Error → Exec (Sys W) B) (rest : A → Exec (Sys W) B)
            → Evolves RunnerBrings m
            → ((e : Error) → Evolves RunnerBrings (handler e))
            → ((a : A) → Evolves RunnerBrings (rest a))
            → Evolves RunnerBrings (handling m handler rest)
        handling-Evolves = Evolves-handling order

    pub when-Evolves :
        (b : Bool) (m : Exec (Sys W) (Unit {0}))
        → Evolves RunnerBrings m
        → Evolves RunnerBrings (when b m)
    when-Evolves = Evolves-when order

    pub set_status-Evolves :
        (f : PackerBuilderStatus → PackerBuilderStatus) → Evolves RunnerBrings (set_status f)
    unfolding set_status
    set_status-Evolves f = record { at = λ s. Brings-refl s.runner }

    module _ (env : Env W) where
      pub reconcile_update-Evolves :
          (n' : PackerBuilderState) (m : String) (l : LastRunStatus) (c : ConditionStatus)
          (type : OpsyConditionType)
          → Goes n n'
          → Evolves RunnerBrings (reconcile_update env n' m l c type)
      reconcile_update-Evolves n' m l c type g = record {
        at = λ s j. elim (reconcile_update-Ends env n' m l c type s) [
          | inl same ↦ inl (λ i. get_current_state (same i) j)
          | inr set ↦
              coe 1 0
                (i.
                  (get_current_state (set i) j ≡ get_current_state s.runner j)
                  ⊎ Goes n (get_current_state (set i) j))
                (set_state-Brings s.pb.status.build_id n' s.runner g j)
        ];
      }

      pub transition_to_error_state-Evolves :
          (r : String) → Evolves RunnerBrings (transition_to_error_state env r)
      unfolding transition_to_error_state
      transition_to_error_state-Evolves r =
          Evolves-bind order _ _ (reconcile_update-Evolves _ _ _ _ _ fails)
            (λ _. Evolves-pure order _)

abbrev pub RunnerGoes : {W : Type 0} → PackerBuilderState → Sys W → Sys W → Type 0
RunnerGoes n s t = Brings n s.runner t.runner
