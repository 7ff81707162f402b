-- ===== src/Controller/Healthy/Taken.antt =====
-- packerbuilder_controller.go: `Reconcile` up to `catchRek`, in a world whose calls succeed.
use opsy_ami_operator.Prelude.{
  String, Bool, true, false, is_empty, ◌==◌, ◌≡◌, refl, ◌∙◌, if◌then◌else◌,
}
use opsy_ami_operator.Go.{Exec, ok, pure, when, ignore, total, ◌>>=◌}
use opsy_ami_operator.Go.Outcomes.{bind_after, handling_after}
use opsy_ami_operator.Api.{PackerBuilder}
use opsy_ami_operator.Api.Conditions.{OpsyConditionType, ConditionStatus}
use opsy_ami_operator.Api.States.{PackerBuilderState, is_unset}
use opsy_ami_operator.Opsy.{get_current_state}
use opsy_ami_operator.Env.{Env}
use opsy_ami_operator.Packer.Manager.{update_status}
use opsy_ami_operator.Controller.State.{Sys, held, in_world, set_status}
use opsy_ami_operator.Controller.Update.{set_condition}
use opsy_ami_operator.Controller.Reconcile.{
  pb_of, set_build_id, set_initial, catch_rek, reconcile_found, reconcile,
}
use opsy_ami_operator.Controller.Healthy.{IsHealthy, Asks, IsAt, IsSaved, Resources, resources}
use opsy_ami_operator.Controller.Healthy.Updates.{conditioned}
use opsy_ami_operator.Controller.Healthy.Fresh.{ignore_after}
use opsy_ami_operator.Controller.Healthy.Checks.{held_after, in_world_after}
use opsy_ami_operator.Controller.Healthy.Creation.{saved}

-- A builder with another build.
abbrev pub with_build : String → Resources → Resources
with_build id res = (id, res.1, res.2, res.3, res.4, res.5, res.6)

skipped :
    {S : Type 0} (b : Bool) (m : Exec S (Unit {0})) (s : S) → b ≡ false → when b m s ≡ (ok tt, s)
unfolding when pure
skipped b m s h i = when (h i) m s

performed : {S : Type 0} (b : Bool) (m : Exec S (Unit {0})) (s : S) → b ≡ true → when b m s ≡ m s
unfolding when
performed b m s h i = when (h i) m s

module _ {W : Type 0} (env : Env W) (healthy : IsHealthy env) where
  -- The first condition of a builder.
  abbrev first_condition : Exec (Sys W) (Unit {0})
  first_condition = ignore (
      set_condition env OpsyConditionType.initial ConditionStatus.condition_true "Starting"
        "Transitioning to Initializing")

  conditions_kept :
      (b : Bool) (s : Sys W)
      → (t : Sys W) × (when b first_condition s ≡ (ok tt, t))
        × Asks s.runner (resources s.pb) s.pb.status.state tt t
  unfolding when pure
  conditions_kept true s =
      let (_, t, h, (a, _)) =
        conditioned env healthy s.runner (resources s.pb) s.pb.status.state
          OpsyConditionType.initial ConditionStatus.condition_true "Starting"
          "Transitioning to Initializing" s (refl, refl, refl) in
      (t, ignore_after _ s t h, a)
  conditions_kept false s = (s, refl, (refl, refl, refl))

  found_known :
      (s : Sys W)
      → (s.pb.status.build_id == "") ≡ false
      → is_unset s.pb.status.state ≡ false
      → (t : Sys W) × (reconcile_found env s ≡ catch_rek env t)
        × Asks s.runner (resources s.pb) s.pb.status.state tt t
  unfolding reconcile_found
  found_known s named set =
      let (t, conditions, a) = conditions_kept (is_empty s.pb.status.conditions) s in
      (
        t,
        bind_after (pb_of env) _ s s s.pb refl
            ∙ bind_after (when (s.pb.status.build_id == "") (set_build_id env)) _ s s tt
                (skipped (s.pb.status.build_id == "") (set_build_id env) s named)
            ∙ bind_after (when (is_empty s.pb.status.conditions) first_condition) _ s t tt
                conditions
            ∙ (λ i. (if set i then set_initial env else catch_rek env) t),
        a,
      )

  -- A builder that was saved is read, and goes on in its state.
  pub reconcile_known :
      (res : Resources) (n : PackerBuilderState) (s : Sys W)
      → (res.0 == "") ≡ false
      → is_unset n ≡ false
      → IsSaved env res n s
      → (t : Sys W) × (reconcile env res.4 res.5 s ≡ catch_rek env t) × IsAt res n t
  unfolding reconcile
  reconcile_known res n s named set ((current, kept, state), w, read) =
      let s₁ = record s { world = w } in
      let (t, found, (runner, same, there)) =
        found_known s₁ ((λ i. (kept i).0 == "") ∙ named) ((λ i. is_unset (state i)) ∙ set) in
      (
        t,
        handling_after (in_world (env.get_packer_builder res.4 res.5)) _ _ s s₁ s.pb
              (in_world_after (env.get_packer_builder res.4 res.5) s w s.pb read)
            ∙ found,
        ((λ i. get_current_state (runner i) res.0) ∙ current, same ∙ kept, there ∙ state),
      )

  build_named :
      (s : Sys W)
      → set_build_id env s ≡ (
        ok tt,
        record s {
          pb = record s.pb { status = record s.pb.status { build_id = (env.new_uuid s.world).0 } };
          world = (env.new_uuid s.world).1;
        },
      )
  unfolding total in_world set_status ◌>>=◌
  build_named s = refl

  initialised :
      (s : Sys W)
      → (t : Sys W) × (set_initial env s ≡ catch_rek env t)
        × Asks s.runner (resources s.pb) PackerBuilderState.initial tt t
  unfolding set_status
  initialised s =
      let initial_status = record s.pb.status { state = PackerBuilderState.initial } in
      let s₁ = record s { pb = record s.pb { status = initial_status } } in
      let (w, written) = saved env healthy s₁.pb s.world in
      let t = record s₁ { world = w } in
      (
        t,
        bind_after (set_status (λ x. record x { state = PackerBuilderState.initial })) _ s s₁ tt
              refl
            ∙ handling_after (held (update_status env)) _ _ s₁ t tt
                (held_after (update_status env) s₁ s₁.pb w tt written),
        (refl, refl, refl),
      )

  found_new :
      (s : Sys W)
      → s.pb.status.build_id ≡ ""
      → is_unset s.pb.status.state ≡ true
      → (t : Sys W) × (reconcile_found env s ≡ catch_rek env t)
        × Asks s.runner
            (with_build (env.new_uuid s.world).0 (resources s.pb))
            PackerBuilderState.initial
            tt
            t
  unfolding reconcile_found
  found_new s unnamed unset =
      let status = record s.pb.status { build_id = (env.new_uuid s.world).0 } in
      let s₁ = record s {
        pb = record s.pb { status = status };
        world = (env.new_uuid s.world).1;
      } in
      let (t₁, conditions, (runner, same, _)) =
        conditions_kept (is_empty s.pb.status.conditions) s₁ in
      let (t, initial, (runner', same', there)) = initialised t₁ in
      (
        t,
        bind_after (pb_of env) _ s s s.pb refl
            ∙ bind_after (when (s.pb.status.build_id == "") (set_build_id env)) _ s s₁ tt (
                performed (s.pb.status.build_id == "") (set_build_id env) s (λ i. unnamed i == "")
                ∙ build_named s)
            ∙ bind_after (when (is_empty s.pb.status.conditions) first_condition) _ s₁ t₁ tt
                conditions
            ∙ (λ i. (if unset i then set_initial env else catch_rek env) t₁)
            ∙ initial,
        (runner' ∙ runner, same' ∙ same, there),
      )

  -- A builder that was not reconciled before is read, gets a build, and goes on in the initial state.
  pub reconcile_new :
      (namespace name : String) (s : Sys W) (pb : PackerBuilder) (w : W)
      → env.get_packer_builder namespace name s.world ≡ (ok pb, w)
      → pb.status.build_id ≡ ""
      → is_unset pb.status.state ≡ true
      → get_current_state s.runner (env.new_uuid w).0 ≡ PackerBuilderState.initial
      → (t : Sys W) × (reconcile env namespace name s ≡ catch_rek env t)
        × IsAt (with_build (env.new_uuid w).0 (resources pb)) PackerBuilderState.initial t
  unfolding reconcile
  reconcile_new namespace name s pb w read unnamed unset free =
      let s₁ = record s { pb = pb; world = w } in
      let (t, found, (runner, same, there)) = found_new s₁ unnamed unset in
      (
        t,
        handling_after (in_world (env.get_packer_builder namespace name)) _ _ s
              (record s { world = w }) pb
              (in_world_after (env.get_packer_builder namespace name) s w pb read)
            ∙ found,
        ((λ i. get_current_state (runner i) (env.new_uuid w).0) ∙ free, same, there),
      )
