-- ===== src/Controller/Healthy/Cycle.antt =====
-- packerbuilder_controller.go: a whole build, by the reconciliations that make it.
use opsy_ami_operator.Prelude.{String, true, false, none, List, [], ◌∷◌, ◌==◌, ◌≡◌, refl, ◌∙◌}
use opsy_ami_operator.Go.{ok}
use opsy_ami_operator.Api.{PackerBuilder}
use opsy_ami_operator.Api.States.{PackerBuilderState, is_unset}
use opsy_ami_operator.Opsy.{get_current_state}
use opsy_ami_operator.Env.{Env}
use opsy_ami_operator.Controller.State.{Sys, requeue_now}
use opsy_ami_operator.Controller.Handlers.{too_many_failures}
use opsy_ami_operator.Controller.Reconcile.{catch_rek, reconcile}
use opsy_ami_operator.Controller.Healthy.{
  IsHealthy, IsAt, IsSaved, Resources, resources, read-filters,
}
use opsy_ami_operator.Controller.Healthy.Moves.{Moves}
use opsy_ami_operator.Controller.Healthy.Fresh.{IsFresh}
use opsy_ami_operator.Controller.Healthy.Checks.{initial_to_checks, checks_to_creation}
use opsy_ami_operator.Controller.Healthy.Creation.{creation_to_running}
use opsy_ami_operator.Controller.Healthy.Finish.{
  JobSucceeds, running_to_completed, completed, created_to_initial,
}
use opsy_ami_operator.Controller.Healthy.Taken.{with_build, reconcile_known, reconcile_new}

-- Reconciliations of one builder that each ask for the next at once, with the states they leave the
-- builder and the runner in.
pub data Visits {W : Type 0} (env : Env W) (namespace name : String)
    : Sys W → List PackerBuilderState → Sys W → Type 0 where
  over : {s : Sys W} → Visits env namespace name s [] s
  run :
      {s t u : Sys W} {n : PackerBuilderState} {ns : List PackerBuilderState}
      → reconcile env namespace name s ≡ (ok requeue_now, t)
      → get_current_state t.runner t.pb.status.build_id ≡ n
      → t.pb.status.state ≡ n
      → Visits env namespace name t ns u
      → Visits env namespace name s (n ∷ ns) u

-- The states of a build from its checks to its end.
abbrev pub build_states : List PackerBuilderState
build_states =
    PackerBuilderState.flight_checks ∷ PackerBuilderState.job_creation
    ∷ PackerBuilderState.job_running ∷ PackerBuilderState.job_completed
    ∷ PackerBuilderState.ami_created ∷ PackerBuilderState.initial ∷ []

-- A builder that was never reconciled, with no filters for a base image and fewer failures than
-- allowed.
pub record IsNew {W : Type 0} (env : Env W) (namespace name : String) (pb : PackerBuilder)
    : Type 0 where
  pub unnamed : pb.status.build_id ≡ ""
  pub unset : is_unset pb.status.state ≡ true
  pub unfiltered : pb.spec.ami_filters ≡ none
  pub namespaced : pb.meta.namespace ≡ namespace
  pub named : pb.meta.name ≡ name
  pub untried : too_many_failures env pb ≡ false

module _ {W : Type 0} (env : Env W) (healthy : IsHealthy env) where
  -- A reconciliation that moves, before others.
  pub moved :
      (res : Resources) (n : PackerBuilderState) (ns : List PackerBuilderState) (s t u : Sys W)
      → reconcile env res.4 res.5 s ≡ (ok requeue_now, t)
      → IsAt res n t
      → Visits env res.4 res.5 t ns u
      → Visits env res.4 res.5 s (n ∷ ns) u
  moved res n ns s t u h (current, kept, state) rest =
      run h ((λ i. get_current_state t.runner ((kept i).0)) ∙ current) state rest

  -- A reconciliation of a builder that was saved, by a run of `catchRek`.
  pub continued :
      (res res' : Resources) (n n' : PackerBuilderState) (s : Sys W)
      → (res.0 == "") ≡ false
      → is_unset n ≡ false
      → ((t : Sys W) → IsAt res n t → Moves env res' n' (catch_rek env) t)
      → IsSaved env res n s
      → Moves env res' n' (reconcile env res.4 res.5) s
  continued res res' n n' s given set move there =
      let (t, taken, at) = reconcile_known env healthy res n s given set there in
      let (u, h, saved) = move t at in (u, taken ∙ h, saved)

  module _ (fresh : IsFresh env) (succeeds : JobSucceeds env) where
    -- The rest of a build, once it is at its checks.
    built :
        (id key_pair group namespace name : String) (s : Sys W)
        → (id == "") ≡ false
        → healthy.filters namespace name ≡ none
        → IsSaved env
            (id, key_pair, group, healthy.filters namespace name, namespace, name, false)
            PackerBuilderState.flight_checks
            s
        → (u : Sys W) × Visits env namespace name s
            (PackerBuilderState.job_creation ∷ PackerBuilderState.job_running
              ∷ PackerBuilderState.job_completed ∷ PackerBuilderState.ami_created
              ∷ PackerBuilderState.initial ∷ [])
            u
          × IsSaved env (id, "", "", none, namespace, name, false) PackerBuilderState.initial u
    built id key_pair group namespace name s given unfiltered checking =
        let res : Resources =
          (id, key_pair, group, healthy.filters namespace name, namespace, name, false) in
        let end : Resources =
          (id, "", "", healthy.filters namespace name, namespace, name, false) in
        let (s₂, h₂, creating) =
          continued res res _ _ s given refl
            (λ t at. checks_to_creation env healthy fresh res t unfiltered at) checking in
        let (s₃, h₃, running) =
          continued res res _ _ s₂ given refl (creation_to_running env healthy fresh res)
            creating in
        let (s₄, h₄, over') =
          continued res res _ _ s₃ given refl (running_to_completed env healthy succeeds res)
            running in
        let (s₅, h₅, created) =
          continued res res _ _ s₄ given refl (completed env healthy res) over' in
        let (s₆, h₆, back) =
          continued res end _ _ s₅ given refl (created_to_initial env healthy res) created in
        (
          s₆,
          moved res _ _ s s₂ s₆ h₂ creating.0 (
              moved res _ _ s₂ s₃ s₆ h₃ running.0 (
                moved res _ _ s₃ s₄ s₆ h₄ over'.0
                  (moved res _ _ s₄ s₅ s₆ h₅ created.0 (moved end _ _ s₅ s₆ s₆ h₆ back.0 over)))),
          coe 0 1
              (i.
                IsSaved env (id, "", "", unfiltered i, namespace, name, false)
                  PackerBuilderState.initial s₆)
              back,
        )

    -- The first reconciliation of a new builder.
    taken_up :
        (namespace name : String) (s : Sys W) (pb : PackerBuilder) (w : W)
        → env.get_packer_builder namespace name s.world ≡ (ok pb, w)
        → IsNew env namespace name pb
        → get_current_state s.runner (env.new_uuid w).0 ≡ PackerBuilderState.initial
        → Moves env
            (
              (env.new_uuid w).0,
              pb.status.last_run_key_pair,
              pb.status.last_run_security_group_id,
              healthy.filters namespace name,
              namespace,
              name,
              false,
            )
            PackerBuilderState.flight_checks
            (reconcile env namespace name)
            s
    taken_up namespace name s pb w read new free =
        let (t, taken, at) =
          reconcile_new env healthy namespace name s pb w read new.unnamed new.unset free in
        let (_, kept, _) = at in
        let (u, h, saved) =
          initial_to_checks env healthy (with_build (env.new_uuid w).0 (resources pb)) t at
            ((λ i. (kept i).6) ∙ new.untried) in
        (
          u,
          taken ∙ h,
          coe 0 1
              (i.
                IsSaved env
                  (
                    (env.new_uuid w).0,
                    pb.status.last_run_key_pair,
                    pb.status.last_run_security_group_id,
                    healthy.filters (new.namespaced i) (new.named i),
                    new.namespaced i,
                    new.named i,
                    new.untried i,
                  )
                  PackerBuilderState.flight_checks u)
              saved,
        )

    -- In a world whose calls succeed and in which nobody edits the image filters of a builder, in
    -- which nothing stands in the way of a build and the first event of a running build is the
    -- success of its job, six reconciliations make the build of a new builder: the first gives it
    -- a build id and goes to the checks, and the others go over the creation of the job, the
    -- running job, the completed job and the created image to the initial state, with the key pair
    -- and the security group out of the stored status; each asks for the next at once.
    pub reconcile-Visits :
        (namespace name : String) (s : Sys W) (pb : PackerBuilder) (w : W)
        → env.get_packer_builder namespace name s.world ≡ (ok pb, w)
        → IsNew env namespace name pb
        → ((env.new_uuid w).0 == "") ≡ false
        → get_current_state s.runner (env.new_uuid w).0 ≡ PackerBuilderState.initial
        → (u : Sys W) × Visits env namespace name s build_states u
          × IsSaved env
              ((env.new_uuid w).0, "", "", none, namespace, name, false)
              PackerBuilderState.initial
              u
    reconcile-Visits namespace name s pb w read new given free =
        let id = (env.new_uuid w).0 in
        let key_pair = pb.status.last_run_key_pair in
        let group = pb.status.last_run_security_group_id in
        let res : Resources =
          (id, key_pair, group, healthy.filters namespace name, namespace, name, false) in
        let unfiltered = read-filters healthy namespace name pb s.world w read ∙ new.unfiltered in
        let (s₁, h₁, checking) = taken_up namespace name s pb w read new free in
        let (u, rest, back) = built id key_pair group namespace name s₁ given unfiltered checking in
        (u, moved res _ _ s s₁ u h₁ checking.0 rest, back)
