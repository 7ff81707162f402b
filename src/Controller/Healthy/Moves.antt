-- ===== src/Controller/Healthy/Moves.antt =====
-- packerbuilder_controller.go: one run of `catchRek` in a world whose calls succeed.
use opsy_ami_operator.Prelude.{String, Bool, true, false, not, some, ◌≡◌, refl, ◌∙◌}
use opsy_ami_operator.Go.{Exec, ok, pure, when, ◌>>=◌}
use opsy_ami_operator.Go.Outcomes.{bind_after, handling_after, map_error_after}
use opsy_ami_operator.Api.Conditions.{OpsyConditionType, ConditionStatus}
use opsy_ami_operator.Api.States.{PackerBuilderState, LastRunStatus, state_beq}
use opsy_ami_operator.Opsy.{get_current_state}
use opsy_ami_operator.Opsy.Graph.{◌⟶◌}
use opsy_ami_operator.Client.{client_aws}
use opsy_ami_operator.Env.{Env}
use opsy_ami_operator.Packer.Manager
use opsy_ami_operator.Packer.Manager.{ManagerPacker}
use opsy_ami_operator.Controller.State.{Sys, ReconcileResult, requeue_now, in_world}
use opsy_ami_operator.Controller.Update.{set_state, or_error_state}
use opsy_ami_operator.Controller.Handlers.{go_to}
use opsy_ami_operator.Controller.Reconcile.{dispatch, current_state, sync_runner, catch_rek}
use opsy_ami_operator.Controller.Healthy.{
  IsHealthy, Gives, IsAt, IsSaved, Resources, resources, as_stored,
}
use opsy_ami_operator.Controller.Healthy.Updates.{reconcile_update-Reaches}

pub when_world :
    {W : Type 0} (b : Bool) (m : Exec W (Unit {0})) (s : Sys W)
    → Gives m s.world
    → (w : W) × (when b (in_world m) s ≡ (ok tt, record s { world = w }))
unfolding when in_world pure
when_world true m s (u, w, h) = (w, (λ i. ((h i).0, record s { world = (h i).1 })))
when_world false m s k = (s.world, refl)

-- The call requeues at once, and leaves the builder, as it is saved, and the runner at a state.
abbrev pub Moves :
    {W : Type 0}
    → Env W
    → Resources
    → PackerBuilderState
    → Exec (Sys W) ReconcileResult
    → Sys W
    → Type 0
Moves {W} env res n m s = (t : Sys W) × (m s ≡ (ok requeue_now, t)) × IsSaved env res n t

module _ {W : Type 0} (env : Env W) (healthy : IsHealthy env) where
  pub client_made : (region : String) (w : W) → Gives (client_aws env region) w
  unfolding client_aws
  client_made region w =
      let (_, w', h) = healthy.config_loaded region w in
      (_, w', map_error_after _ (env.load_default_config region) w w' _ h)

  pub manager_made :
      (region : String) (w : W)
      → (m : ManagerPacker) × (w' : W) × (Manager.new env region w ≡ (ok (some m), w'))
  unfolding Manager.new pure
  manager_made region w =
      let (_, w', h) = client_made region w in
      (_, w', handling_after (client_aws env region) _ _ w w' _ h)

  pub synced :
      (res : Resources) (n : PackerBuilderState) (s : Sys W)
      → state_beq n n ≡ true
      → IsAt res n s
      → sync_runner env s ≡ (ok tt, s)
  unfolding sync_runner ◌>>=◌ when pure
  synced res n s same (current, kept, state) =
      let at = (λ i. get_current_state s.runner ((kept i).0)) ∙ current in
      (λ i. when (not (state_beq (at i) (state i))) (set_state env) s)
      ∙ (λ i. when (not (same i)) (set_state env) s)

  pub dispatched :
      (res : Resources) (n : PackerBuilderState) (s : Sys W)
      → state_beq n n ≡ true
      → IsAt res n s
      → (m : ManagerPacker) × (w : W) × (catch_rek env s
          ≡ dispatch env n (some m) (record s { world = w }))
  unfolding catch_rek in_world ◌>>=◌
  dispatched res n s same (current, kept, state) =
      let (m, w, made) = manager_made s.pb.spec.region s.world in
      let t = record s { world = w } in
      let at = (λ i. get_current_state s.runner ((kept i).0)) ∙ current in
      (
        m,
        w,
        bind_after (in_world (Manager.new env s.pb.spec.region))
              (λ pm.
                or_error_state env "failed to update state: " (sync_runner env)
                  (λ _. current_state env >>= λ current'. dispatch env current' pm))
              s t (some m) (λ i. ((made i).0, record s { world = (made i).1 }))
            ∙ handling_after (sync_runner env) _
                (λ _. current_state env >>= λ current'. dispatch env current' (some m)) t t tt
                (synced res n t same (current, kept, state))
            ∙ (λ i. dispatch env (at i) (some m) t),
      )

  pub went_to :
      (n : PackerBuilderState) (m : String) (l : LastRunStatus) (type : OpsyConditionType)
      (failure : String) (s : Sys W)
      → get_current_state s.runner s.pb.status.build_id ⟶ n
      → Moves env (as_stored healthy (resources s.pb)) n (go_to env n m l type failure) s
  unfolding pure
  went_to n m l type failure s e =
      let (_, t, h, at) =
        reconcile_update-Reaches env healthy n m l ConditionStatus.condition_true type s e in
      (t, handling_after _ _ _ s t tt h, at)
