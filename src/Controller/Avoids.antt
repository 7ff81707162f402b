-- ===== src/Controller/Avoids.antt =====
-- packerbuilder_controller.go: which states an update does not bring a build to.
use opsy_ami_operator.Prelude.{
  String, Bool, true, false, ◌&&◌, ◌==◌, ◌≡◌, ◌≢◌, refl, sym, ◌∙◌, ◌⊎◌, inl, inr, if◌then◌else◌,
}
use opsy_ami_operator.Go.{Exec, Result, ok, err, panics, pure, total, ◌>>=◌}
use opsy_ami_operator.Go.Evolves.{Order, Evolves, Evolves-pure, Evolves-handling, Evolves-bind}
use opsy_ami_operator.Api.Conditions.{OpsyConditionType, ConditionStatus}
use opsy_ami_operator.Api.States.{PackerBuilderState, LastRunStatus}
use opsy_ami_operator.Opsy
use opsy_ami_operator.Opsy.{OpsyRunner, get_current_state, is_valid_transition}
use opsy_ami_operator.Opsy.Graph.{get_current_state-set_state}
use opsy_ami_operator.Env.{Env}
use opsy_ami_operator.Controller.State.{Sys, ReconcileResult, on_runner, in_world, set_status}
use opsy_ami_operator.Controller.Update.{
  stamp, set_state, patch, reconcile_update, transition_to_error_state, or_error_state,
}
use opsy_ami_operator.Controller.Transition.{At, patch-runner, recorded, conditioned, notify-At}

-- An update leaves the runner as it was, or after one call of `SetState`.
abbrev pub Ends :
    {W : Type 0} → OpsyRunner → String → PackerBuilderState → Result (Unit {0}) × Sys W → Type 0
Ends sm id n x = (x.1.runner ≡ sm) ⊎ (x.1.runner ≡ (Opsy.set_state id n sm).1)

module _ {W : Type 0} (sm : OpsyRunner) (id : String) (n : PackerBuilderState) where
  -- An action that keeps `At`, before the rest of the body.
  after_quiet :
      (m : Exec (Sys W) (Unit {0})) (f : Unit {0} → Exec (Sys W) (Unit {0})) (t : Sys W)
      → At sm id n (m t).1
      → ((t' : Sys W) → At sm id n t' → Ends sm id n (f tt t'))
      → Ends sm id n ((m >>= f) t)
  unfolding ◌>>=◌
  after_quiet m f t a k = elim (m t).0 as (λ r. Ends sm id n (((λ _. (r, (m t).1)) >>= f) t)) [
    | ok u ↦ k (m t).1 a
    | err e ↦ inl a.0
    | panics ↦ inl a.0
  ]

module _ {W : Type 0} (env : Env W) where
  patched :
      (r : Result (Unit {0})) (t : Sys W)
      → (((λ s. (r, t)) >>= λ _. patch env) t).1.runner ≡ t.runner
  unfolding ◌>>=◌
  patched (ok u) t = patch-runner env t
  patched (err e) t = refl
  patched panics t = refl

  set_state_step :
      (sm : OpsyRunner) (id : String) (n : PackerBuilderState) (t : Sys W)
      → At sm id n t
      → Ends sm id n ((set_state env >>= λ _. patch env) t)
  unfolding ◌>>=◌ set_state on_runner
  set_state_step sm id n t (runner, build, state) =
      let x = Opsy.set_state t.pb.status.build_id t.pb.status.state t.runner in
      inr (
        patched x.0 (record t { runner = x.1 })
        ∙ (λ i. (Opsy.set_state (build i) (state i) (runner i)).1))

  stamped :
      (n : PackerBuilderState) (l : LastRunStatus) (m : String)
      (f : Unit {0} → Exec (Sys W) (Unit {0})) (s : Sys W)
      → ((t : Sys W)
          → At s.runner s.pb.status.build_id n t
          → Ends s.runner s.pb.status.build_id n (f tt t))
      → Ends s.runner s.pb.status.build_id n ((stamp env n l m >>= f) s)
  unfolding ◌>>=◌ stamp in_world set_status total
  stamped n l m f s k = k _ (refl, refl, refl)

  pub reconcile_update-Ends :
      (n : PackerBuilderState) (m : String) (l : LastRunStatus) (c : ConditionStatus)
      (type : OpsyConditionType) (s : Sys W)
      → Ends s.runner s.pb.status.build_id n (reconcile_update env n m l c type s)
  unfolding reconcile_update
  reconcile_update-Ends n m l c type s =
      let sm = s.runner in
      let id = s.pb.status.build_id in
      stamped n l m _ s λ t a. after_quiet sm id n _ _ t (recorded env m sm id n t a) λ t₁ a₁.
        after_quiet sm id n _ _ t₁ (conditioned env type c m sm id n t₁ a₁) λ t₂ a₂.
          after_quiet sm id n _ _ t₂ (notify-At env m sm id n t₂ a₂) (set_state_step sm id n)

-- No build comes to a state in which it was not.
abbrev pub Avoids : {W : Type 0} → PackerBuilderState → Sys W → Sys W → Type 0
Avoids n s t = (id : String) → get_current_state t.runner id ≡ n → get_current_state s.runner id ≡ n

abbrev pub avoids_order : {W : Type 0} (n : PackerBuilderState) → Order (Avoids {W = W} n)
avoids_order n = record { same = λ s id h. h; both = λ s t u p q id h. p id (q id h) }

set_state-avoids :
    (n n' : PackerBuilderState) (id j : String) (sm : OpsyRunner)
    → n' ≢ n
    → get_current_state (Opsy.set_state id n' sm).1 j ≡ n
    → get_current_state sm j ≡ n
set_state-avoids n n' id j sm other h =
    go (id == j && is_valid_transition (get_current_state sm id) n')
      (sym (get_current_state-set_state id j n' sm) ∙ h)
  where
    go : (b : Bool) → (if b then n' else get_current_state sm j) ≡ n → get_current_state sm j ≡ n
    go true e = absurd (other e)
    go false e = e

module _ {W : Type 0} (env : Env W) (n : PackerBuilderState) where
  pub reconcile_update-Avoids :
      (n' : PackerBuilderState) (m : String) (l : LastRunStatus) (c : ConditionStatus)
      (type : OpsyConditionType)
      → n' ≢ n
      → Evolves (Avoids {W = W} n) (reconcile_update env n' m l c type)
  reconcile_update-Avoids n' m l c type other = record {
    at = λ s j h. elim (reconcile_update-Ends env n' m l c type s) [
      | inl same ↦ (λ i. get_current_state (sym same i) j) ∙ h
      | inr set ↦
          set_state-avoids n n' s.pb.status.build_id j s.runner other
            ((λ i. get_current_state (sym set i) j) ∙ h)
    ];
  }

  -- An update to another state, and to the error state where it fails.
  pub or_error_state-Avoids :
      (n' : PackerBuilderState) (m failure : String) (l : LastRunStatus) (c : ConditionStatus)
      (type : OpsyConditionType) (r : ReconcileResult)
      → n' ≢ n
      → PackerBuilderState.error ≢ n
      → Evolves
          (Avoids {W = W} n)
          (or_error_state env failure (reconcile_update env n' m l c type) (λ _. pure r))
  unfolding transition_to_error_state
  or_error_state-Avoids n' m failure l c type r other other' =
      Evolves-handling (avoids_order n) _ _ _ (reconcile_update-Avoids n' m l c type other)
        (λ e.
          Evolves-bind (avoids_order n) _ _ (reconcile_update-Avoids _ _ _ _ _ other')
            (λ _. Evolves-pure (avoids_order n) _))
        (λ _. Evolves-pure (avoids_order n) _)
