-- ===== src/Controller/Reconcile/Stuck.antt =====
-- packerbuilder_controller.go: a builder whose clean-up failed.
use opsy_ami_operator.Prelude.{
  String, Bool, true, false, not, Option, ◌≡◌, refl, arith, ◌==◌, if◌then◌else◌,
}
use opsy_ami_operator.Go.{Exec, Error, Result, ok, err, panics, ◌>>=◌, handling, when}
use opsy_ami_operator.Api.Conditions.{OpsyConditionType, ConditionStatus}
use opsy_ami_operator.Api.States.{PackerBuilderState, LastRunStatus, state_beq}
use opsy_ami_operator.Opsy
use opsy_ami_operator.Opsy.{OpsyRunner, get_current_state, is_valid_transition}
use opsy_ami_operator.Opsy.Graph.{◌⟶◌, is_valid_transition_iff}
use opsy_ami_operator.Env.{Env}
use opsy_ami_operator.Packer.Manager
use opsy_ami_operator.Packer.Manager.{ManagerPacker}
use opsy_ami_operator.Packer.Cleanup.{delete_key_pair}
use opsy_ami_operator.Controller.State.{Sys, in_world, on_runner}
use opsy_ami_operator.Controller.Update.{set_state, transition_to_error_state}
use opsy_ami_operator.Controller.Transition.{reconcile_update_refused}
use opsy_ami_operator.Controller.Handlers.{cleanup_build}
use opsy_ami_operator.Controller.Reconcile.{sync_runner, catch_rek}

-- The runner is at the created image, and the builder's status says that there was an error.
abbrev pub IsStuck : {W : Type 0} → Sys W → Type 0
IsStuck s =
    (get_current_state s.runner s.pb.status.build_id ≡ PackerBuilderState.ami_created)
    × (s.pb.status.state ≡ PackerBuilderState.error)

-- The outcome is an error or a panic, and the state is stuck.
abbrev pub EndsStuck : {W A : Type 0} → Result A × Sys W → Type 0
EndsStuck {A = A} x = ((a : A) → ¬ (x.0 ≡ ok a)) × IsStuck x.1

no_edge : ¬ (PackerBuilderState.ami_created ⟶ PackerBuilderState.error)
unfolding is_valid_transition
no_edge e = let v = (is_valid_transition_iff _ _).1 e in ground arith

no_edge_at :
    (s : PackerBuilderState) → s ≡ PackerBuilderState.ami_created → ¬ (s ⟶ PackerBuilderState.error)
no_edge_at s h e = no_edge (coe 0 1 (i. h i ⟶ PackerBuilderState.error) e)

module _ {W A B : Type 0} where
  bind-EndsStuck :
      (m : Exec (Sys W) A) (f : A → Exec (Sys W) B) (s : Sys W)
      → EndsStuck (m s)
      → EndsStuck ((m >>= f) s)
  unfolding ◌>>=◌
  bind-EndsStuck m f s (n, k) =
      elim (m s).0 as (λ r. ((a : A) → ¬ (r ≡ ok a)) → EndsStuck (((λ _. (r, (m s).1)) >>= f) s)) [
        | ok a ↦ λ n. absurd (n a refl)
        | err e ↦ λ n. (λ b h. ground arith, k)
        | panics ↦ λ n. (λ b h. ground arith, k)
      ]
        n

module _ {W : Type 0} (env : Env W) where
  transition_to_error_state-EndsStuck :
      (reason : String) (s : Sys W)
      → get_current_state s.runner s.pb.status.build_id ≡ PackerBuilderState.ami_created
      → EndsStuck (transition_to_error_state env reason s)
  unfolding transition_to_error_state
  transition_to_error_state-EndsStuck reason s h =
      let (n, r, i, k) =
        reconcile_update_refused env PackerBuilderState.error reason LastRunStatus.failed
          ConditionStatus.condition_false OpsyConditionType.failed s (no_edge_at _ h) in
      bind-EndsStuck _ _ s (λ u. n, (rw r (rw i h), k))

module _ {W A B : Type 0} where
  bind_on :
      (m : Exec (Sys W) A) (f : A → Exec (Sys W) B) (s : Sys W)
      → IsStuck (m s).1
      → ((a : A) → EndsStuck (f a (m s).1))
      → EndsStuck ((m >>= f) s)
  unfolding ◌>>=◌
  bind_on m f s k kf = elim (m s).0 as (λ r. EndsStuck (((λ _. (r, (m s).1)) >>= f) s)) [
    | ok a ↦ kf a
    | err e ↦ (λ b h. ground arith, k)
    | panics ↦ (λ b h. ground arith, k)
  ]

  handling_on :
      (m : Exec (Sys W) A) (handler : Error → Exec (Sys W) B) (f : A → Exec (Sys W) B) (s t : Sys W)
      (e : Error)
      → m s ≡ (err e, t)
      → EndsStuck (handler e t)
      → EndsStuck (handling m handler f s)
  unfolding handling
  handling_on m handler f s t e h k = coe 1 0 (i. EndsStuck (handling (λ _. h i) handler f s)) k

if_refused :
    {A S : Type 0} (b : Bool) (x : Result A × S) (e : Error) (s : S)
    → b ≡ false
    → (e' : Error) × ((if b then x else (err e, s)) ≡ (err e', s))
if_refused false x e s h = (e, refl)
if_refused true x e s h = ground arith

pub refused_set_state :
    (id : String) (n : PackerBuilderState) (sm : OpsyRunner)
    → is_valid_transition (get_current_state sm id) n ≡ false
    → (e : Error) × (Opsy.set_state id n sm ≡ (err e, sm))
unfolding Opsy.set_state
refused_set_state id n sm h = if_refused _ _ _ _ h

module _ {W : Type 0} (env : Env W) where
  set_state-IsStuck : (s : Sys W) → IsStuck s → (e : Error) × (set_state env s ≡ (err e, s))
  unfolding set_state on_runner is_valid_transition
  set_state-IsStuck s (h, k) =
      let (e, p) =
        refused_set_state s.pb.status.build_id s.pb.status.state s.runner (rw h (rw k refl)) in
      (e, rw p refl)

  sync_runner-IsStuck : (s : Sys W) → IsStuck s → (e : Error) × (sync_runner env s ≡ (err e, s))
  unfolding sync_runner ◌>>=◌ when
  sync_runner-IsStuck s (h, k) =
      let p : not (state_beq (get_current_state s.runner s.pb.status.build_id) s.pb.status.state)
          ≡ true =
        rw h (rw k refl) in
      coe 1 0 (i. (e : Error) × (when (p i) (set_state env) s ≡ (err e, s)))
        (set_state-IsStuck s (h, k))

  -- A builder that is stuck stays stuck: no run of `catchRek` on it succeeds, and after it the
  -- builder is stuck still.
  pub catch_rek-IsStuck : (s : Sys W) → IsStuck s → EndsStuck (catch_rek env s)
  unfolding catch_rek in_world
  catch_rek-IsStuck s k = bind_on _ _ s k λ pb. bind_on _ _ s k λ pm.
      let t = (in_world (Manager.new env pb.spec.region) s).1 in
      let (e, p) = sync_runner-IsStuck t k in
      handling_on _ _ _ t t e p (transition_to_error_state-EndsStuck env _ t k.0)

  failed_deletion :
      (pm : Option ManagerPacker) (name : String) (e : Error) (s : Sys W)
      → name == "" ≡ false
      → (delete_key_pair env pm name s.world).0 ≡ err e
      → when (not (name == "")) (in_world (delete_key_pair env pm name)) s
        ≡ (err e, record s { world = (delete_key_pair env pm name s.world).1 })
  unfolding when in_world
  failed_deletion pm name e s h k = rw h (rw k refl)

  -- The clean-up after a created image, where the key pair of the build cannot be deleted, leaves
  -- the builder stuck: the runner does not go from the created image to the error.
  pub cleanup_build-IsStuck :
      (pm : Option ManagerPacker) (s : Sys W) (e : Error)
      → get_current_state s.runner s.pb.status.build_id ≡ PackerBuilderState.ami_created
      → s.pb.status.last_run_key_pair == "" ≡ false
      → (delete_key_pair env pm s.pb.status.last_run_key_pair s.world).0 ≡ err e
      → EndsStuck (cleanup_build env pm s)
  unfolding cleanup_build ◌>>=◌
  cleanup_build-IsStuck pm s e h k d =
      handling_on _ _ _ s _ e (failed_deletion pm _ e s k d)
        (transition_to_error_state-EndsStuck env _ _ h)
