-- ===== src/Controller/Steps.antt =====
-- packerbuilder_controller.go: the changes of state against the diagram, for every action that
-- the handlers are built from.
use opsy_ami_operator.Prelude.{String, Bool, arith, if◌then◌else◌}
use opsy_ami_operator.Go.{
  Exec, Error, Result, ok, err, panics, pure, raise, lift, when, handling, ignore, ◌>>=◌,
}
use opsy_ami_operator.Go.Evolves.{
  Order, Evolves, Evolves-pure, Evolves-raise, Evolves-when, Evolves-if, Evolves-handling,
  Evolves-bind,
}
use opsy_ami_operator.Api.{PackerBuilderStatus, PackerBuilder}
use opsy_ami_operator.Api.Conditions.{OpsyConditionType, ConditionStatus}
use opsy_ami_operator.Api.States.{PackerBuilderState, LastRunStatus}
use opsy_ami_operator.Opsy.Graph.{Progress, Progress-refl, Progress-trans, set_state-Progress}
use opsy_ami_operator.Env.{Env}
use opsy_ami_operator.Packer.Manager.{Held}
use opsy_ami_operator.Controller.State.{Sys, ReconcileResult, held, in_world, on_runner, set_status}
use opsy_ami_operator.Controller.Update.{
  stamp, record_normal_event, set_condition, notify, set_state, patch, reconcile_update,
  transition_to_error_state, or_error_state,
}

abbrev pub RunnerProgress : {W : Type 0} → Sys W → Sys W → Type 0
RunnerProgress s t = Progress s.runner t.runner

abbrev order : {W : Type 0} → Order (RunnerProgress {W = W})
order = record {
  same = λ s. Progress-refl s.runner;
  both = λ s t u. Progress-trans s.runner t.runner u.runner;
}

module _ {W A : Type 0} where
  pub held-Evolves : (m : Exec (Held W) A) → Evolves (RunnerProgress {W = W}) (held m)
  unfolding held
  held-Evolves m = record { at = λ s. Progress-refl s.runner }

  pub in_world-Evolves : (m : Exec W A) → Evolves (RunnerProgress {W = W}) (in_world m)
  unfolding in_world
  in_world-Evolves m = record { at = λ s. Progress-refl s.runner }

module _ {W A B : Type 0} where
  pub bind-Evolves :
      (m : Exec (Sys W) A) (rest : A → Exec (Sys W) B)
      → Evolves (RunnerProgress {W = W}) m
      → ((a : A) → Evolves (RunnerProgress {W = W}) (rest a))
      → Evolves (RunnerProgress {W = W}) (m >>= rest)
  bind-Evolves = Evolves-bind order

  pub handling-Evolves :
      (m : Exec (Sys W) A) (handler : Error → Exec (Sys W) B) (rest : A → Exec (Sys W) B)
      → Evolves (RunnerProgress {W = W}) m
      → ((e : Error) → Evolves (RunnerProgress {W = W}) (handler e))
      → ((a : A) → Evolves (RunnerProgress {W = W}) (rest a))
      → Evolves (RunnerProgress {W = W}) (handling m handler rest)
  handling-Evolves = Evolves-handling order

module _ {W A : Type 0} where
  pub pure-Evolves : (a : A) → Evolves (RunnerProgress {W = W}) (pure a)
  pure-Evolves = Evolves-pure order

  pub raise-Evolves : (e : Error) → Evolves (RunnerProgress {W = W}) (raise {A = A} e)
  raise-Evolves = Evolves-raise order

  pub if-Evolves :
      (b : Bool) (m n : Exec (Sys W) A)
      → Evolves (RunnerProgress {W = W}) m
      → Evolves (RunnerProgress {W = W}) n
      → Evolves (RunnerProgress {W = W}) (if b then m else n)
  if-Evolves = Evolves-if

  pub lift-Evolves : (r : Result A) → Evolves (RunnerProgress {W = W}) (lift r)
  unfolding lift
  lift-Evolves r = record { at = λ s. Progress-refl s.runner }

  pub value-Evolves : (f : Sys W → A) → Evolves (RunnerProgress {W = W}) (λ s. (ok (f s), s))
  value-Evolves f = record { at = λ s. Progress-refl s.runner }

ignored :
    {W : Type 0} (s t : Sys W) (r : Result (Unit {0}))
    → Progress s.runner t.runner
    → Progress s.runner (ignore {S = Sys W} (λ _. (r, t)) s).1.runner
unfolding ignore
ignored s t (ok a) p = p
ignored s t (err e) p = p
ignored s t panics p = p

pub ignore-Evolves :
    {W : Type 0} (m : Exec (Sys W) (Unit {0}))
    → Evolves (RunnerProgress {W = W}) m
    → Evolves (RunnerProgress {W = W}) (ignore m)
unfolding ignore
ignore-Evolves m k = record { at = λ s. let (r, t) = m s in ignored s t r (k.at s) }

pub when-Evolves :
    {W : Type 0} (b : Bool) (m : Exec (Sys W) (Unit {0}))
    → Evolves (RunnerProgress {W = W}) m
    → Evolves (RunnerProgress {W = W}) (when b m)
when-Evolves = Evolves-when order

pub set_status-Evolves :
    {W : Type 0} (f : PackerBuilderStatus → PackerBuilderStatus)
    → Evolves (RunnerProgress {W = W}) (set_status f)
unfolding set_status
set_status-Evolves f = record { at = λ s. Progress-refl s.runner }

patched :
    {W : Type 0} (s : Sys W) (w : W) (r : Result PackerBuilder)
    → Progress s.runner
        (elim r as (λ _. Result (Unit {0}) × Sys W) [
          | ok pb ↦ (ok tt, record s { pb = pb; world = w })
          | err e ↦ (err e, record s { world = w })
          | panics ↦ (panics, record s { world = w })
        ]).1.runner
patched s w (ok pb) = Progress-refl s.runner
patched s w (err e) = Progress-refl s.runner
patched s w panics = Progress-refl s.runner

module _ {W : Type 0} (env : Env W) where
  pub set_state-Evolves : Evolves (RunnerProgress {W = W}) (set_state env)
  unfolding set_state on_runner
  set_state-Evolves = record {
    at = λ s. set_state-Progress s.pb.status.build_id s.pb.status.state s.runner;
  }

  pub patch-Evolves : Evolves (RunnerProgress {W = W}) (patch env)
  unfolding patch
  patch-Evolves = record {
    at = λ s. let (r, w) = env.patch_packer_builder s.pb s.pb s.world in patched s w r;
  }

  pub record_normal_event-Evolves :
      (m : String) → Evolves (RunnerProgress {W = W}) (record_normal_event env m)
  unfolding record_normal_event
  record_normal_event-Evolves m = record { at = λ s. Progress-refl s.runner }

  pub stamp-Evolves :
      (n : PackerBuilderState) (l : LastRunStatus) (m : String)
      → Evolves (RunnerProgress {W = W}) (stamp env n l m)
  unfolding stamp
  stamp-Evolves n l m = Evolves-bind order _ _ (in_world-Evolves _) (λ now. set_status-Evolves _)

  pub set_condition-Evolves :
      (t : OpsyConditionType) (s : ConditionStatus) (r m : String)
      → Evolves (RunnerProgress {W = W}) (set_condition env t s r m)
  unfolding set_condition
  set_condition-Evolves t s r m = held-Evolves _

  pub notify-Evolves : (m : String) → Evolves (RunnerProgress {W = W}) (notify env m)
  unfolding notify in_world
  notify-Evolves m = record { at = λ s. ground (arith, Progress-refl s.runner) }

  pub reconcile_update-Evolves :
      (n : PackerBuilderState) (m : String) (l : LastRunStatus) (c : ConditionStatus)
      (t : OpsyConditionType)
      → Evolves (RunnerProgress {W = W}) (reconcile_update env n m l c t)
  unfolding reconcile_update
  reconcile_update-Evolves n m l c t =
      search
        (
          bind-Evolves, stamp-Evolves, record_normal_event-Evolves, set_condition-Evolves,
          notify-Evolves, set_state-Evolves, patch-Evolves,
        )
        depth 15

  pub transition_to_error_state-Evolves :
      (r : String) → Evolves (RunnerProgress {W = W}) (transition_to_error_state env r)
  unfolding transition_to_error_state
  transition_to_error_state-Evolves r =
      Evolves-bind order _ _ (reconcile_update-Evolves _ _ _ _ _) (λ _. Evolves-pure order _)

  pub or_error_state-Evolves :
      {A : Type 0} (p : String) (m : Exec (Sys W) A) (rest : A → Exec (Sys W) ReconcileResult)
      → Evolves (RunnerProgress {W = W}) m
      → ((a : A) → Evolves (RunnerProgress {W = W}) (rest a))
      → Evolves (RunnerProgress {W = W}) (or_error_state env p m rest)
  or_error_state-Evolves p m rest km kr =
      Evolves-handling order _ _ _ km (λ e. transition_to_error_state-Evolves _) kr
