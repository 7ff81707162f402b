-- ===== src/Controller/Healthy.antt =====
-- packerbuilder_controller.go: updates in a world whose calls succeed.
pub mod Updates
pub mod Moves
pub mod Finish
pub mod Fresh
pub mod Images
pub mod Checks
pub mod Creation
pub mod Taken
pub mod Cycle
pub mod Failure
use opsy_ami_operator.Prelude.{
  String, Bool, true, false, Option, none, some, List, ◌≡◌, refl, sym, ap, ◌∙◌, Bool-cases, inl,
  inr, arith, if◌then◌else◌,
}
use opsy_ami_operator.Prelude.Int.{pos, leb_ℤ}
use opsy_ami_operator.Controller.Handlers.{or_default}
use opsy_ami_operator.Go.{Exec, Result, ok, err, panics, pure, lift, total, ◌>>=◌}
use opsy_ami_operator.Go.Outcomes.{bind_after, handling_after}
use opsy_ami_operator.Status
use opsy_ami_operator.Packer.Manager.{packer_builder_conditions}
use opsy_ami_operator.Api.{PackerBuilder, PackerBuilderStatus, AmiFilters}
use opsy_ami_operator.Api.Commands.{StringMap}
use opsy_ami_operator.Api.Conditions.{OpsyConditionType, ConditionStatus}
use opsy_ami_operator.Api.States.{PackerBuilderState, LastRunStatus, state_text}
use opsy_ami_operator.Opsy
use opsy_ami_operator.Opsy.{OpsyRunner, get_current_state}
use opsy_ami_operator.Opsy.Graph.{◌⟶◌, set_state_ok_iff}
use opsy_ami_operator.Env.{Env, SlackPost}
use opsy_ami_operator.Cond
use opsy_ami_operator.Notifier
use opsy_ami_operator.Controller.State.{Sys, held, in_world, on_runner, set_status}
use opsy_ami_operator.Controller.Transition.{set_state_now}
use opsy_ami_operator.Controller.Update.{
  find_key, token_of, is_silent, is_empty, send_slack, stamp, record_normal_event, set_condition,
  notify, set_state, patch, reconcile_update,
}

-- A call that gives a value.
abbrev pub Gives : {S A : Type 0} → Exec S A → S → Type 0
Gives {S} {A} m s = (a : A) × (t : S) × (m s ≡ (ok a, t))

-- The API server, Slack and EC2 refuse nothing: the secret of Slack has its token, and what is to be
-- deleted is there. The API server stores a builder for each namespace and name, whose image filters
-- nobody changes: a read gives it, an update of the status of the latest version stores the new status,
-- and a patch that changes nothing is answered with it. The calls of an update between the write of
-- the status and the patch leave it alone.
pub record IsHealthy {W : Type 0} (env : Env W) : Type 0 where
  pub stored : String → String → W → PackerBuilder
  pub filters : String → String → Option (List AmiFilters)
  pub identified :
      (namespace name : String) (w : W)
      → ((stored namespace name w).meta.namespace ≡ namespace)
        × ((stored namespace name w).meta.name ≡ name)
        × ((stored namespace name w).spec.ami_filters ≡ filters namespace name)
  pub builder_read :
      (namespace name : String) (w : W)
      → (w' : W) × (env.get_packer_builder namespace name w ≡ (ok (stored namespace name w), w'))
        × (stored namespace name w' ≡ stored namespace name w)
  pub latest_read :
      (pb : PackerBuilder) (w : W)
      → (w' : W) × (env.packer_builders.get_latest pb w
          ≡ (ok (stored pb.meta.namespace pb.meta.name w), w'))
        × (stored pb.meta.namespace pb.meta.name w' ≡ stored pb.meta.namespace pb.meta.name w)
  pub status_written :
      (namespace name : String) (status : PackerBuilderStatus) (w : W)
      → (w' : W) × (env.packer_builders.update_status
            (record (stored namespace name w) { status = status })
            w
          ≡ (ok tt, w'))
        × ((stored namespace name w').status ≡ status)
  -- An empty merge patch.
  pub patched :
      (pb : PackerBuilder) (w : W)
      → (w' : W) × (env.patch_packer_builder pb pb w
          ≡ (ok (stored pb.meta.namespace pb.meta.name w), w'))
        × (stored pb.meta.namespace pb.meta.name w' ≡ stored pb.meta.namespace pb.meta.name w)
  -- A function that succeeds at once is called once.
  pub tried_once :
      (m : Exec W (Unit {0})) (w w' : W)
      → m w ≡ (ok tt, w')
      → env.packer_builders.retry_on_conflict m w ≡ (ok tt, w')
  pub secret_read :
      (namespace name : String) (w : W)
      → (secret : StringMap) × (token : String) × (w' : W) × (env.get_secret namespace name w
          ≡ (ok secret, w'))
        × (find_key "token" secret ≡ some token)
        × ((a b : String) → stored a b w' ≡ stored a b w)
  pub posted :
      (token channel : String) (post : SlackPost) (w : W)
      → (w' : W) × (env.post_message token channel post w ≡ (ok tt, w'))
        × ((a b : String) → stored a b w' ≡ stored a b w)
  pub config_loaded : (region : String) (w : W) → Gives (env.load_default_config region) w
  pub key_pair_described : (name : String) (w : W) → Gives (env.describe_key_pairs name) w
  pub key_pair_deleted : (name : String) (w : W) → Gives (env.delete_key_pair name) w
  pub group_described : (id : String) (w : W) → Gives (env.describe_security_groups id) w
  pub group_deleted : (id : String) (w : W) → Gives (env.delete_security_group id) w

-- A call that succeeds in a state of which something is then known.
abbrev pub Reaches : {S A : Type 0} → (A → S → Type 0) → Exec S A → S → Type 0
Reaches {S} {A} P m s = (a : A) × (t : S) × (m s ≡ (ok a, t)) × P a t

module _ {S A B : Type 0} where
  pub Reaches-bind :
      {P : A → S → Type 0} {Q : B → S → Type 0} (m : Exec S A) (f : A → Exec S B) (s : S)
      → Reaches P m s
      → ((a : A) (t : S) → P a t → Reaches Q (f a) t)
      → Reaches Q (m >>= f) s
  Reaches-bind m f s (a, t, h, p) k =
      let (b, u, h', q) = k a t p in (b, u, bind_after m f s t a h ∙ h', q)

-- The build, the fields that the clean-up needs, the filters of the base image, and the builder's
-- namespace and name, and whether it has failed too often.
abbrev pub Resources : Type 0
Resources = String × String × String × Option (List AmiFilters) × String × String × Bool

-- `too_many_failures`, which depends on the status only.
abbrev pub failed_enough : PackerBuilderStatus → Bool
failed_enough status =
    leb_ℤ (or_default (pos 3) status.max_number_of_failed_jobs)
      (or_default (pos 0) status.failed_job_count)

abbrev pub resources : PackerBuilder → Resources
resources pb = (
  pb.status.build_id,
  pb.status.last_run_key_pair,
  pb.status.last_run_security_group_id,
  pb.spec.ami_filters,
  pb.meta.namespace,
  pb.meta.name,
  failed_enough pb.status,
)

module _ {W : Type 0} where
  -- Before the runner is asked: the builder in memory has the new state.
  abbrev pub Asks : OpsyRunner → Resources → PackerBuilderState → Unit {0} → Sys W → Type 0
  Asks sm res n u t = (t.runner ≡ sm) × (resources t.pb ≡ res) × (t.pb.status.state ≡ n)

  -- The builder and the runner are at a state.
  abbrev pub IsAt : Resources → PackerBuilderState → Sys W → Type 0
  IsAt res n t =
      (get_current_state t.runner res.0 ≡ n) × (resources t.pb ≡ res) × (t.pb.status.state ≡ n)

-- And the builder in memory is what the API server has.
abbrev pub IsSaved : {W : Type 0} → Env W → Resources → PackerBuilderState → Sys W → Type 0
IsSaved {W} env res n t =
    IsAt res n t × (w : W) × (env.get_packer_builder res.4 res.5 t.world ≡ (ok t.pb, w))

module _ {W : Type 0} {env : Env W} (healthy : IsHealthy env) where
  -- The resources with the filters that the API server has.
  abbrev pub as_stored : Resources → Resources
  as_stored res = (res.0, res.1, res.2, healthy.filters res.4 res.5, res.4, res.5, res.6)

  -- The status of the builder in memory is that of the stored one.
  abbrev pub IsWritten : Sys W → Type 0
  IsWritten t = (healthy.stored t.pb.meta.namespace t.pb.meta.name t.world).status ≡ t.pb.status

  -- A builder that is read has the filters that the API server has.
  pub read-filters :
      (namespace name : String) (pb : PackerBuilder) (w w' : W)
      → env.get_packer_builder namespace name w ≡ (ok pb, w')
      → healthy.filters namespace name ≡ pb.spec.ami_filters
  read-filters namespace name pb w w' h =
      let (w₁, read, _) = healthy.builder_read namespace name w in
      let same : healthy.stored namespace name w ≡ pb = ground (arith, read, h) in
      sym (healthy.identified namespace name w).2
      ∙ ap (λ (x : PackerBuilder). x.spec.ami_filters) same

  pub IsSaved-as_stored :
      (res : Resources) (n : PackerBuilderState) (s : Sys W)
      → IsSaved env res n s
      → as_stored res ≡ res
  IsSaved-as_stored res n s ((_, kept, _), w, read) =
      let same = read-filters res.4 res.5 s.pb s.world w read ∙ (λ i. (kept i).3) in
      λ i. (res.0, res.1, res.2, same i, res.4, res.5, res.6)
