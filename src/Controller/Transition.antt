-- ===== src/Controller/Transition.antt =====
-- packerbuilder_controller.go: what one `reconcileUpdate` does to the builder's own build.
use opsy_ami_operator.Prelude.{String, ◌≡◌, refl, arith, eq_iff}
use opsy_ami_operator.Go.{Exec, Result, ok, err, panics, ◌>>=◌, total}
use opsy_ami_operator.Api.Conditions.{OpsyConditionType, ConditionStatus}
use opsy_ami_operator.Api.States.{PackerBuilderState, LastRunStatus, state_text}
use opsy_ami_operator.Opsy
use opsy_ami_operator.Opsy.{OpsyRunner, get_current_state, is_valid_transition}
use opsy_ami_operator.Opsy.Graph.{
  ◌⟶◌, is_valid_transition_iff, get_current_state-set_state, set_state_ok_iff,
}
use opsy_ami_operator.Env.{Env}
use opsy_ami_operator.Cond
use opsy_ami_operator.Controller.State.{Sys, held, in_world, on_runner, set_status}
use opsy_ami_operator.Controller.Update.{
  stamp, record_normal_event, set_condition, notify, set_state, patch, reconcile_update,
}

-- The builder in memory has this build and this state, and the runner is `sm`.
abbrev pub At : {W : Type 0} → OpsyRunner → String → PackerBuilderState → Sys W → Type 0
At sm id n t = (t.runner ≡ sm) × (t.pb.status.build_id ≡ id) × (t.pb.status.state ≡ n)

-- What is known of the end of an update that starts with `sm` and goes to `n`.
pub record Outcome {W : Type 0} (sm : OpsyRunner) (id : String) (n : PackerBuilderState)
    (x : Result (Unit {0}) × Sys W) : Type 0 where
  pub accepted : x.0 ≡ ok tt → get_current_state sm id ⟶ n
  pub reached : x.0 ≡ ok tt → get_current_state x.1.runner id ≡ n
  pub refused : ¬ (get_current_state sm id ⟶ n) → At sm id n x.1

module _ {W : Type 0} (sm : OpsyRunner) (id : String) (n : PackerBuilderState) where
  failed-Outcome :
      (r : Result (Unit {0})) (t : Sys W) → ¬ (r ≡ ok tt) → At sm id n t → Outcome sm id n (r, t)
  failed-Outcome r t f a = record {
    accepted = λ h. absurd (f h);
    reached = λ h. absurd (f h);
    refused = λ _. a;
  }

  -- An action that keeps `At`, before the rest of the body.
  after_quiet :
      (m : Exec (Sys W) (Unit {0})) (f : Unit {0} → Exec (Sys W) (Unit {0})) (t : Sys W)
      → At sm id n (m t).1
      → ((t' : Sys W) → At sm id n t' → Outcome sm id n (f tt t'))
      → Outcome sm id n ((m >>= f) t)
  unfolding ◌>>=◌
  after_quiet m f t a k = elim (m t).0 as (λ r. Outcome sm id n (((λ _. (r, (m t).1)) >>= f) t)) [
    | ok u ↦ k (m t).1 a
    | err e ↦ failed-Outcome _ _ (λ h. ground arith) a
    | panics ↦ failed-Outcome _ _ (λ h. ground arith) a
  ]

module _ {W : Type 0} (env : Env W) where
  pub patch-runner : (t : Sys W) → (patch env t).1.runner ≡ t.runner
  unfolding patch
  patch-runner t =
      elim (env.patch_packer_builder t.pb t.pb t.world).0
        as (λ r.
          (elim r as (λ _. Result (Unit {0}) × Sys W) [
            | ok pb ↦ (
              ok tt,
              record t { pb = pb; world = (env.patch_packer_builder t.pb t.pb t.world).1 },
            )
            | err e ↦ (err e, record t { world = (env.patch_packer_builder t.pb t.pb t.world).1 })
            | panics ↦ (panics, record t { world = (env.patch_packer_builder t.pb t.pb t.world).1 })
          ]).1.runner
          ≡ t.runner) [ ok pb ↦ refl | err e ↦ refl | panics ↦ refl ]

  finish :
      (t : Sys W) (sm₀ : OpsyRunner) (id : String) (n : PackerBuilderState) (r : Result (Unit {0}))
      (sm : OpsyRunner)
      → t.pb.status.build_id ≡ id
      → t.pb.status.state ≡ n
      → (r ≡ ok tt → get_current_state sm₀ id ⟶ n)
      → (r ≡ ok tt → get_current_state sm id ≡ n)
      → (¬ (r ≡ ok tt) → sm ≡ sm₀)
      → Outcome sm₀ id n (((λ s. (r, record s { runner = sm })) >>= λ _. patch env) t)
  unfolding ◌>>=◌
  finish t sm₀ id n (ok u) sm eid en edge now same = record {
    accepted = λ _. edge refl;
    reached = λ _. rw (patch-runner (record t { runner = sm })) (now refl);
    refused = λ ne. absurd (ne (edge refl));
  }
  finish t sm₀ id n (err e) sm eid en edge now same =
      failed-Outcome sm₀ id n _ _ (λ h. ground arith) (same (λ h. ground arith), eid, en)
  finish t sm₀ id n panics sm eid en edge now same =
      failed-Outcome sm₀ id n _ _ (λ h. ground arith) (same (λ h. ground arith), eid, en)

pub set_state_now :
    (id : String) (n : PackerBuilderState) (sm : OpsyRunner)
    → (Opsy.set_state id n sm).0 ≡ ok tt
    → get_current_state (Opsy.set_state id n sm).1 id ≡ n
set_state_now id n sm h =
    let valid = (is_valid_transition_iff _ _).1 ((set_state_ok_iff id n sm).0 h) in
    ground (arith, eq_iff id id, get_current_state-set_state id id n sm)

set_state_same :
    (id : String) (n : PackerBuilderState) (sm : OpsyRunner)
    → ¬ ((Opsy.set_state id n sm).0 ≡ ok tt)
    → (Opsy.set_state id n sm).1 ≡ sm
unfolding Opsy.set_state
set_state_same id n sm h = ground arith

module _ {W : Type 0} (env : Env W) where
  set_state_step :
      (sm : OpsyRunner) (id : String) (n : PackerBuilderState) (t : Sys W)
      → At sm id n t
      → Outcome sm id n ((set_state env >>= λ _. patch env) t)
  unfolding ◌>>=◌ set_state on_runner
  set_state_step sm id n t (e, i, k) =
      let same : Opsy.set_state t.pb.status.build_id t.pb.status.state t.runner
          ≡ Opsy.set_state id n sm =
        cc in
      finish env t sm id n _ _ i k (λ h. (set_state_ok_iff id n sm).0 cc)
        (λ h. let now = set_state_now id n sm cc in cc)
        (λ h. let kept = set_state_same id n sm (λ h'. h cc) in cc)

  pub recorded :
      (m : String) (sm : OpsyRunner) (id : String) (n : PackerBuilderState) (t : Sys W)
      → At sm id n t
      → At sm id n (record_normal_event env m t).1
  unfolding record_normal_event
  recorded m sm id n t a = a

  pub conditioned :
      (type : OpsyConditionType) (c : ConditionStatus) (m : String) (sm : OpsyRunner) (id : String)
      (n : PackerBuilderState) (t : Sys W)
      → At sm id n t
      → At sm id n (set_condition env type c (state_text n) m t).1
  unfolding set_condition held Cond.set_condition
  conditioned type c m sm id n t a = a

  pub notify-At :
      (m : String) (sm : OpsyRunner) (id : String) (n : PackerBuilderState) (t : Sys W)
      → At sm id n t
      → At sm id n (notify env m t).1
  unfolding notify in_world
  notify-At m sm id n t a = ground arith

  stamped :
      (n : PackerBuilderState) (l : LastRunStatus) (m : String)
      (f : Unit {0} → Exec (Sys W) (Unit {0})) (s : Sys W)
      → ((t : Sys W)
          → At s.runner s.pb.status.build_id n t
          → Outcome s.runner s.pb.status.build_id n (f tt t))
      → Outcome s.runner s.pb.status.build_id n ((stamp env n l m >>= f) s)
  unfolding ◌>>=◌ stamp in_world set_status total
  stamped n l m f s k = k _ (refl, refl, refl)

  reconcile_update-Outcome :
      (n : PackerBuilderState) (m : String) (l : LastRunStatus) (c : ConditionStatus)
      (type : OpsyConditionType) (s : Sys W)
      → Outcome s.runner s.pb.status.build_id n (reconcile_update env n m l c type s)
  unfolding reconcile_update
  reconcile_update-Outcome n m l c type s =
      let sm = s.runner in
      let id = s.pb.status.build_id in
      stamped n l m _ s λ t a. after_quiet sm id n _ _ t (recorded m sm id n t a) λ t₁ a₁.
        after_quiet sm id n _ _ t₁ (conditioned type c m sm id n t₁ a₁)
          λ t₂ a₂. after_quiet sm id n _ _ t₂ (notify-At m sm id n t₂ a₂) (set_state_step sm id n)

  -- An update that succeeds made a transition that is an edge of the diagram, from the runner's
  -- state of the build to the new state, and leaves the runner at the new state.
  pub reconcile_update_ok :
      (n : PackerBuilderState) (m : String) (l : LastRunStatus) (c : ConditionStatus)
      (type : OpsyConditionType) (s : Sys W)
      → (reconcile_update env n m l c type s).0 ≡ ok tt
      → (get_current_state s.runner s.pb.status.build_id ⟶ n)
        × (get_current_state (reconcile_update env n m l c type s).1.runner s.pb.status.build_id
            ≡ n)
  reconcile_update_ok n m l c type s h =
      let o = reconcile_update-Outcome n m l c type s in (o.accepted h, o.reached h)

  -- An update whose transition is not an edge does not succeed and changes no state of the runner,
  -- but the builder in memory already has the new state.
  pub reconcile_update_refused :
      (n : PackerBuilderState) (m : String) (l : LastRunStatus) (c : ConditionStatus)
      (type : OpsyConditionType) (s : Sys W)
      → ¬ (get_current_state s.runner s.pb.status.build_id ⟶ n)
      → ¬ ((reconcile_update env n m l c type s).0 ≡ ok tt)
        × ((reconcile_update env n m l c type s).1.runner ≡ s.runner)
        × ((reconcile_update env n m l c type s).1.pb.status.build_id ≡ s.pb.status.build_id)
        × ((reconcile_update env n m l c type s).1.pb.status.state ≡ n)
  reconcile_update_refused n m l c type s e =
      let o = reconcile_update-Outcome n m l c type s in
      let (same, build, state) = o.refused e in (λ h. e (o.accepted h), same, build, state)
