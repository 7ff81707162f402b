-- ===== src/Controller/Healthy/Finish.antt =====
-- packerbuilder_controller.go: the end of a build in a world whose calls succeed.
use opsy_ami_operator.Prelude.{
  Bool, String, true, false, not, some, ◌==◌, ◌≡◌, refl, ◌∙◌, List, ◌∷◌,
}
use opsy_ami_operator.Go.{total, when, ◌>>=◌}
use opsy_ami_operator.Go.Outcomes.{bind_after, handling_after}
use opsy_ami_operator.Api.Conditions.{OpsyConditionType}
use opsy_ami_operator.Api.States.{PackerBuilderState, LastRunStatus}
use opsy_ami_operator.Opsy.{get_current_state}
use opsy_ami_operator.Opsy.Graph.{◌⟶◌, publish, complete, reset, IsKnown}
use opsy_ami_operator.Api.{PackerBuilder}
use opsy_ami_operator.Env.{Env, WatchEvent, build_result}
use opsy_ami_operator.Packer.Logs.{nothing_found}
use opsy_ami_operator.Controller.Watch.{on_result, watch_loop, running_build}
use opsy_ami_operator.Packer.Manager
use opsy_ami_operator.Packer.Manager.{ManagerPacker}
use opsy_ami_operator.Packer.Cleanup.{delete_key_pair, delete_security_group}
use opsy_ami_operator.Controller.State.{Sys, in_world, set_status}
use opsy_ami_operator.Controller.Handlers.{
  transition_to_job_completed_state, complete_build, cleanup_build,
}
use opsy_ami_operator.Controller.Reconcile.{dispatch, catch_rek}
use opsy_ami_operator.Controller.Healthy.{
  failed_enough, IsHealthy, Gives, IsAt, IsSaved, Resources, resources, as_stored,
}
use opsy_ami_operator.Controller.Healthy.Moves.{
  when_world, Moves, manager_made, dispatched, went_to,
}

from_created :
    {s : PackerBuilderState} → s ≡ PackerBuilderState.ami_created → s ⟶ PackerBuilderState.initial
from_created h = reset (coe 1 0 (i. IsKnown (h i)) tt) refl

-- The first event of a running build is the success of its job.
abbrev pub JobSucceeds : {W : Type 0} → Env W → Type 0
JobSucceeds {W} env =
    (reason : String) × ((pb : PackerBuilder) (w : W)
      → (es : List WatchEvent) × ((env.watch_events pb w).0 ≡ build_result true true reason ∷ es))

-- And its failure.
abbrev pub JobFails : {W : Type 0} → Env W → Type 0
JobFails {W} env =
    (reason : String) × ((pb : PackerBuilder) (w : W)
      → (es : List WatchEvent) × ((env.watch_events pb w).0 ≡ build_result true false reason ∷ es))

module _ {W : Type 0} (env : Env W) (healthy : IsHealthy env) where
  -- A builder of a completed job goes to the created image.
  pub completed :
      (res : Resources) (s : Sys W)
      → IsAt res PackerBuilderState.job_completed s
      → Moves env (as_stored healthy res) PackerBuilderState.ami_created (catch_rek env) s
  unfolding dispatch complete_build
  completed res s (current, kept, state) =
      let (m, w, same) =
        dispatched env healthy res PackerBuilderState.job_completed s refl (current, kept, state) in
      let at = (λ i. get_current_state s.runner ((kept i).0)) ∙ current in
      let (t, h, there) =
        went_to env healthy PackerBuilderState.ami_created "Transitioning to AMICreated"
          LastRunStatus.completed OpsyConditionType.ami_created
          "Failed to transition to AMICreated state: " (record s { world = w }) (publish at refl) in
      (
        t,
        same ∙ h,
        coe 0 1 (i. IsSaved env (as_stored healthy (kept i)) PackerBuilderState.ami_created t)
            there,
      )

  key_pair_gone :
      (m : ManagerPacker) (name : String) (w : W) → Gives (delete_key_pair env (some m) name) w
  unfolding delete_key_pair
  key_pair_gone m name w =
      let (_, w₁, described) = healthy.key_pair_described name w in
      let (_, w₂, deleted) = healthy.key_pair_deleted name w₁ in
      (tt, w₂, handling_after (env.describe_key_pairs name) _ _ w w₁ tt described ∙ deleted)

  group_gone :
      (m : ManagerPacker) (id : String) (w : W) → Gives (delete_security_group env (some m) id) w
  unfolding delete_security_group
  group_gone m id w =
      let (_, w₁, described) = healthy.group_described id w in
      let (_, w₂, deleted) = healthy.group_deleted id w₁ in
      (tt, w₂, handling_after (env.describe_security_groups id) _ _ w w₁ tt described ∙ deleted)

  -- The clean-up deletes what packer left behind and goes back to the start.
  cleaned :
      (m : ManagerPacker) (s : Sys W)
      → get_current_state s.runner s.pb.status.build_id ≡ PackerBuilderState.ami_created
      → Moves env
          (
            s.pb.status.build_id,
            "",
            "",
            healthy.filters s.pb.meta.namespace s.pb.meta.name,
            s.pb.meta.namespace,
            s.pb.meta.name,
            failed_enough s.pb.status,
          )
          PackerBuilderState.initial
          (cleanup_build env (some m))
          s
  unfolding cleanup_build set_status ◌>>=◌
  cleaned m s current =
      let key = s.pb.status.last_run_key_pair in
      let group = s.pb.status.last_run_security_group_id in
      let (w₁, first) =
        when_world (not (key == "")) (delete_key_pair env (some m) key) s
          (key_pair_gone m key s.world) in
      let s₁ = record s {
        pb = record s.pb { status = record s.pb.status { last_run_key_pair = "" } };
        world = w₁;
      } in
      let (w₂, second) =
        when_world (not (group == "")) (delete_security_group env (some m) group) s₁
          (group_gone m group w₁) in
      let s₂ = record s₁ {
        pb = record s₁.pb { status = record s₁.pb.status { last_run_security_group_id = "" } };
        world = w₂;
      } in
      let (t, h, there) =
        went_to env healthy PackerBuilderState.initial "Transitioning to Intializing"
          LastRunStatus.running OpsyConditionType.initial
          "Failed to transition to Initialize state: " s₂ (from_created current) in
      (
        t,
        handling_after (when (not (key == "")) (in_world (delete_key_pair env (some m) key))) _ _ s
              (record s { world = w₁ }) tt first
            ∙ handling_after
                (when (not (group == "")) (in_world (delete_security_group env (some m) group))) _ _
                s₁ (record s₁ { world = w₂ }) tt second
            ∙ h,
        there,
      )

  pub created_to_initial :
      (res : Resources) (s : Sys W)
      → IsAt res PackerBuilderState.ami_created s
      → Moves env
          (res.0, "", "", healthy.filters res.4 res.5, res.4, res.5, res.6)
          PackerBuilderState.initial
          (catch_rek env)
          s
  unfolding dispatch
  created_to_initial res s (current, kept, state) =
      let (m, w, same) =
        dispatched env healthy res PackerBuilderState.ami_created s refl (current, kept, state) in
      let at = (λ i. get_current_state s.runner ((kept i).0)) ∙ current in
      let (t, h, there) = cleaned m (record s { world = w }) at in
      (
        t,
        same ∙ h,
        coe 0 1
            (i.
              IsSaved env
                (as_stored healthy
                  ((kept i).0, "", "", (kept i).3, (kept i).4, (kept i).5, (kept i).6))
                PackerBuilderState.initial t)
            there,
      )

  -- The first event of a running build is the outcome of its job.
  pub received :
      (succeeded : Bool) (reason : String) (s : Sys W)
      → ((pb : PackerBuilder) (w : W)
          → (es : List WatchEvent) × ((env.watch_events pb w).0
              ≡ build_result true succeeded reason ∷ es))
      → (w : W) × (running_build env s ≡ on_result env succeeded reason (record s { world = w }))
  unfolding running_build watch_loop in_world total ◌>>=◌
  received succeeded reason s outcome =
      let (m, w, made) = manager_made env healthy s.pb.spec.region s.world in
      let (es, first) = outcome s.pb w in
      let s₁ = record s { world = w } in
      let s₂ = record s { world = (env.watch_events s.pb w).1 } in
      (
        s₂.world,
        bind_after (in_world (Manager.new env s.pb.spec.region))
              (λ pm. in_world (total (env.watch_events s.pb)) >>= λ events.
                watch_loop env pm (nothing_found, false) events)
              s s₁ (some m) (λ i. ((made i).0, record s { world = (made i).1 }))
            ∙ (λ i. watch_loop env (some m) (nothing_found, false) (first i) s₂),
      )

  built :
      (succeeds : JobSucceeds env) (s : Sys W)
      → get_current_state s.runner s.pb.status.build_id ≡ PackerBuilderState.job_running
      → Moves env
          (as_stored healthy (resources s.pb))
          PackerBuilderState.job_completed
          (running_build env)
          s
  unfolding transition_to_job_completed_state
  built (reason, succeeds) s current =
      let (w, outcome) = received true reason s succeeds in
      let (t, h, there) =
        went_to env healthy PackerBuilderState.job_completed "Transitioning to JobCompleted"
          LastRunStatus.completed OpsyConditionType.completed
          "Failed to transition to JobCompleted state: " (record s { world = w })
          (complete current refl) in
      (t, outcome ∙ h, there)

  pub running_to_completed :
      (succeeds : JobSucceeds env) (res : Resources) (s : Sys W)
      → IsAt res PackerBuilderState.job_running s
      → Moves env (as_stored healthy res) PackerBuilderState.job_completed (catch_rek env) s
  unfolding dispatch
  running_to_completed succeeds res s (current, kept, state) =
      let (m, w, same) =
        dispatched env healthy res PackerBuilderState.job_running s refl (current, kept, state) in
      let at = (λ i. get_current_state s.runner ((kept i).0)) ∙ current in
      let (t, h, there) = built succeeds (record s { world = w }) at in
      (
        t,
        same ∙ h,
        coe 0 1 (i. IsSaved env (as_stored healthy (kept i)) PackerBuilderState.job_completed t)
            there,
      )
