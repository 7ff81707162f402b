-- ===== src/Controller/Healthy/Updates.antt =====
-- packerbuilder_controller.go: an update in a world whose calls succeed.
use opsy_ami_operator.Prelude.{String, Bool, true, false, ◌≡◌, refl, sym, ap, ◌∙◌, if◌then◌else◌}
use opsy_ami_operator.Go.{Result, ok, err, panics, pure, lift, total, ◌>>=◌}
use opsy_ami_operator.Go.Outcomes.{bind_after, handling_after}
use opsy_ami_operator.Status
use opsy_ami_operator.Packer.Manager.{packer_builder_conditions}
use opsy_ami_operator.Api.{PackerBuilder, PackerBuilderStatus}
use opsy_ami_operator.Api.Conditions.{OpsyConditionType, ConditionStatus}
use opsy_ami_operator.Api.States.{PackerBuilderState, LastRunStatus, state_text}
use opsy_ami_operator.Opsy
use opsy_ami_operator.Opsy.{OpsyRunner, get_current_state}
use opsy_ami_operator.Opsy.Graph.{◌⟶◌, set_state_ok_iff}
use opsy_ami_operator.Env.{Env}
use opsy_ami_operator.Cond
use opsy_ami_operator.Notifier
use opsy_ami_operator.Controller.State.{Sys, held, in_world, on_runner, set_status}
use opsy_ami_operator.Controller.Transition.{set_state_now}
use opsy_ami_operator.Controller.Update.{
  find_key, token_of, is_silent, is_empty, send_slack, stamp, record_normal_event, set_condition,
  notify, set_state, patch, reconcile_update,
}
use opsy_ami_operator.Controller.Healthy.{
  failed_enough, IsHealthy, Reaches, Reaches-bind, Resources, resources, Asks, IsAt, IsSaved,
  as_stored, IsWritten,
}

module _ {W : Type 0} (env : Env W) (healthy : IsHealthy env) where
  -- The status of the object in memory is the one that is stored then.
  pub status_updated :
      (pb : PackerBuilder) (w : W)
      → (w' : W) × (Status.update packer_builder_conditions.has_status env.packer_builders pb w
          ≡ (ok tt, w'))
        × ((healthy.stored pb.meta.namespace pb.meta.name w').status ≡ pb.status)
  unfolding Status.update Status.update_once pure
  status_updated pb w =
      let namespace = pb.meta.namespace in
      let name = pb.meta.name in
      let (w₁, read, kept) = healthy.latest_read pb w in
      let (w₂, written, at) = healthy.status_written namespace name pb.status w₁ in
      (
        w₂,
        healthy.tried_once _ w w₂ (
            handling_after (env.packer_builders.get_latest pb) _ _ w w₁
              (healthy.stored namespace name w) read
            ∙ handling_after _ _ pure w₁ w₂ tt (
                (λ i.
                  env.packer_builders.update_status (record (sym kept i) { status = pb.status }) w₁)
                ∙ written)),
        at,
      )

  slack_sent :
      (pb : PackerBuilder) (m : String) (w : W)
      → (w' : W) × (send_slack env pb m w ≡ (ok tt, w'))
        × ((a b : String) → healthy.stored a b w' ≡ healthy.stored a b w)
  unfolding send_slack Notifier.send lift
  slack_sent pb m w =
      let (secret, token, w₁, read, found, kept) =
        healthy.secret_read pb.meta.namespace pb.spec.notify.slack.secret w in
      let (w₂, posted, kept') = healthy.posted token _ _ w₁ in
      (
        w₂,
        bind_after (env.get_secret pb.meta.namespace pb.spec.notify.slack.secret) _ w w₁ secret read
            ∙ bind_after (lift (token_of (find_key "token" secret))) _ w₁ w₁ token
                (λ i. (token_of (found i), w₁))
            ∙ posted,
        λ a b. kept' a b ∙ kept a b,
      )

  module _ (sm : OpsyRunner) (res : Resources) (n : PackerBuilderState) where
    recorded :
        (m : String) (t : Sys W)
        → Asks sm res n tt t
        → Reaches (Asks sm res n) (record_normal_event env m) t
    unfolding record_normal_event
    recorded m t a = (tt, _, refl, a)

    pub conditioned :
        (type : OpsyConditionType) (c : ConditionStatus) (reason m : String) (t : Sys W)
        → Asks sm res n tt t
        → Reaches
            (λ u t. Asks sm res n u t × IsWritten healthy t)
            (set_condition env type c reason m)
            t
    unfolding set_condition held Cond.set_condition
    conditioned type c reason m t a =
        let pb = (set_condition env type c reason m t).1.pb in
        let (w', updated, at) = status_updated pb (env.now t.world).1 in
        (
          tt,
          record t { pb = pb; world = w' },
          (λ i. ((updated i).0, record t { pb = pb; world = (updated i).1 })),
          (a, at),
        )

    one_of :
        (silent empty : Bool) (P : Sys W → Type 0) (t : Sys W) (x : Result (Unit {0}) × Sys W)
        → P t
        → (u : Sys W) × (x ≡ (ok tt, u)) × P u
        → (u : Sys W) × ((if silent then (ok tt, t) else if empty then (ok tt, t) else x)
            ≡ (ok tt, u))
          × P u
    one_of true empty P t x a k = (t, refl, a)
    one_of false true P t x a k = (t, refl, a)
    one_of false false P t x a k = k

    notified :
        (m : String) (t : Sys W)
        → Asks sm res n tt t × IsWritten healthy t
        → Reaches (λ u t. Asks sm res n u t × IsWritten healthy t) (notify env m) t
    unfolding notify in_world
    notified m t (a, at) =
        let (w', slack, kept) = slack_sent t.pb m t.world in
        let same = kept t.pb.meta.namespace t.pb.meta.name in
        let (u, done, b) =
          one_of (is_silent t.pb.status.state) (is_empty t.pb.spec.notify.slack)
            (λ t. Asks sm res n tt t × IsWritten healthy t) t (in_world (send_slack env t.pb m) t)
            (a, at)
            (
              record t { world = w' },
              (λ i. ((slack i).0, record t { world = (slack i).1 })),
              (a, ap (λ (pb : PackerBuilder). pb.status) same ∙ at),
            ) in
        (tt, u, done, b)

    runner_set :
        (t : Sys W)
        → get_current_state sm res.0 ⟶ n
        → Asks sm res n tt t × IsWritten healthy t
        → Reaches (λ _ t. IsAt res n t × IsWritten healthy t) (set_state env) t
    unfolding set_state on_runner
    runner_set t e ((runner, kept, state), at) =
        let accepted = (set_state_ok_iff res.0 n sm).1 e in
        let called : Opsy.set_state t.pb.status.build_id t.pb.status.state t.runner
            ≡ Opsy.set_state res.0 n sm =
          λ i. Opsy.set_state ((kept i).0) (state i) (runner i) in
        (
          tt,
          record t { runner = (Opsy.set_state res.0 n sm).1 },
          (λ i. ((called i).0, record t { runner = (called i).1 }))
              ∙ (λ i. (accepted i, record t { runner = (Opsy.set_state res.0 n sm).1 })),
          ((set_state_now res.0 n sm accepted, kept, state), at),
        )

    -- What `patch` does with the reply.
    abbrev replied : Sys W → Result PackerBuilder × W → Result (Unit {0}) × Sys W
    replied t x = elim x.0 as (λ _. Result (Unit {0}) × Sys W) [
      | ok pb ↦ (ok tt, record t { pb = pb; world = x.1 })
      | err e ↦ (err e, record t { world = x.1 })
      | panics ↦ (panics, record t { world = x.1 })
    ]

    sent :
        (t : Sys W)
        → IsAt res n t × IsWritten healthy t
        → Reaches (λ _. IsSaved env (as_stored healthy res) n) (patch env) t
    unfolding patch
    sent t ((current, kept, state), same) =
        let namespace = t.pb.meta.namespace in
        let name = t.pb.meta.name in
        let (w', reply, unchanged) = healthy.patched t.pb t.world in
        let (w'', read, _) = healthy.builder_read namespace name w' in
        let pb' = healthy.stored namespace name t.world in
        let (namespaced, named, filtered) = healthy.identified namespace name t.world in
        (
          tt,
          record t { pb = pb'; world = w' },
          ap (replied t) reply,
          (
            (
              current,
              (λ i. (
                (same i).build_id,
                (same i).last_run_key_pair,
                (same i).last_run_security_group_id,
                filtered i,
                namespaced i,
                named i,
                failed_enough (same i),
              ))
                  ∙ ap (as_stored healthy) kept,
              ap (λ (x : PackerBuilderStatus). x.state) same ∙ state,
            ),
            w'',
            (λ i. env.get_packer_builder (sym kept i).4 (sym kept i).5 w')
                ∙ read
                ∙ (λ i. (ok (unchanged i), w'')),
          ),
        )

  stamped :
      (n : PackerBuilderState) (l : LastRunStatus) (m : String) (s : Sys W)
      → Reaches (Asks s.runner (resources s.pb) n) (stamp env n l m) s
  unfolding stamp set_status in_world total ◌>>=◌
  stamped n l m s = (tt, _, refl, (refl, refl, refl))

  -- An update to a state that the diagram allows succeeds, and leaves the builder, as it is stored, and
  -- the runner there.
  pub reconcile_update-Reaches :
      (n : PackerBuilderState) (m : String) (l : LastRunStatus) (c : ConditionStatus)
      (type : OpsyConditionType) (s : Sys W)
      → get_current_state s.runner s.pb.status.build_id ⟶ n
      → Reaches
          (λ _. IsSaved env (as_stored healthy (resources s.pb)) n)
          (reconcile_update env n m l c type)
          s
  unfolding reconcile_update
  reconcile_update-Reaches n m l c type s e =
      let sm = s.runner in
      let res = resources s.pb in
      Reaches-bind _ _ s (stamped n l m s) λ _ t a.
        Reaches-bind _ _ t (recorded sm res n m t a) λ _ t₁ a₁.
          Reaches-bind _ _ t₁ (conditioned sm res n type c (state_text n) m t₁ a₁) λ _ t₂ a₂.
            Reaches-bind _ _ t₂ (notified sm res n m t₂ a₂) λ _ t₃ a₃.
              Reaches-bind _ _ t₃ (runner_set sm res n t₃ e a₃) λ _ t₄ a₄. sent sm res n t₄ a₄
