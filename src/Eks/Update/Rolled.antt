-- ===== src/Eks/Update/Rolled.antt =====
-- eks.go: what a successful update of a node group found and did.
use opsy_ami_operator.Prelude.{
  String, Bool, true, false, Option, none, some, ◌≡◌, ◌≢◌, refl, ◌∙◌, ◌⊎◌, inl, inr, if◌then◌else◌,
  List, ◌∷◌, [], ◌==◌, eq_iff, arith,
}
use opsy_ami_operator.Prelude.Int.{ℤ}
use opsy_ami_operator.Prelude.Texts.{trim_prefix}
use opsy_ami_operator.Go.{ok, pure, when, ◌>>◌}
use opsy_ami_operator.Go.Outcomes.{bind-eq-ok, map_error-eq-ok, bind_lift-eq-ok}
use opsy_ami_operator.Env.{Env}
use opsy_ami_operator.Env.Aws.{LaunchTemplate, LaunchTemplateData, Nodegroup}
use opsy_ami_operator.Eks.{ManagerRefresh, UpdateConfig}
use opsy_ami_operator.Eks.Wait.{wait_for_update_completion}
use opsy_ami_operator.Eks.Update.{
  to_string, template_of, first_version, is_current, image_is, version_number, check_context,
  update_node_group_config, inspect, roll_out, update_some, update_node_group_ami,
}

-- The calls that give a group on template `t` the image: a new version of the template from its
-- current one, and the group on that version.
pub record IsRolledOut {W : Type 0} (env : Env W) (m : ManagerRefresh) (group ami : String)
    (c : UpdateConfig) (t : LaunchTemplate) (w w' : W) : Type 0 where
  pub created : Option (Option ℤ)
  pub number : ℤ
  pub w₁ : W
  pub w₂ : W
  pub w₃ : W
  pub version_created :
      env.create_launch_template_version (to_string t.name) (to_string t.version) ami w
      ≡ (ok created, w₁)
  pub numbered : version_number created ≡ ok number
  pub live : check_context env w₁ ≡ (ok tt, w₂)
  pub group_updated :
      env.update_nodegroup_version m.cluster_name group (env.format_decimal number) w₂ ≡ (ok tt, w₃)
  pub waited :
      when c.wait_for_completion (check_context env >> wait_for_update_completion env m group) w₃
      ≡ (ok tt, w')

-- The calls that find the template of a group and the first of its versions, and no other.
pub record IsRead {W : Type 0} (env : Env W) (m : ManagerRefresh) (group : String)
    (c : UpdateConfig) (t : LaunchTemplate) (current : Option LaunchTemplateData) (w w' : W)
    : Type 0 where
  pub described : Option Nodegroup
  pub others : List (Option LaunchTemplateData)
  pub w₁ : W
  pub w₂ : W
  pub w₃ : W
  pub w₄ : W
  pub live : check_context env w ≡ (ok tt, w₁)
  pub configured : update_node_group_config env m group c w₁ ≡ (ok tt, w₂)
  pub group_read : env.describe_nodegroup m.cluster_name group w₂ ≡ (ok described, w₃)
  pub on_template : template_of described ≡ ok t
  pub still_live : check_context env w₃ ≡ (ok tt, w₄)
  pub versions_read :
      env.describe_launch_template_versions (to_string t.name) (to_string t.version) w₄
      ≡ (ok (current ∷ others), w')

-- A version of a template has the image, or another one; a prefix for the latest image is left aside.
abbrev pub HasImage : Bool → Option LaunchTemplateData → String → Type 0
HasImage force current ami =
    (force ≡ false)
    × (d : LaunchTemplateData) × (id : String) × (current ≡ some d)
    × (d.image_id ≡ some id)
    × (trim_prefix id "$Latest-" ≡ ami)

abbrev pub HasOther : Option LaunchTemplateData → String → Type 0
HasOther current ami =
    (d : LaunchTemplateData) × (id : String) × (current ≡ some d)
    × (d.image_id ≡ some id)
    × (trim_prefix id "$Latest-" ≢ ami)

image_is_lem :
    (image : Option String) (ami : String) (b : Bool)
    → image_is image ami ≡ ok b
    → (id : String) × (image ≡ some id) × ((trim_prefix id "$Latest-" == ami) ≡ b)
image_is_lem none ami b h = ground arith
image_is_lem (some id) ami b h = (id, refl, ground arith)

is_current-true :
    (force : Bool) (current : Option LaunchTemplateData) (ami : String)
    → is_current force current ami ≡ ok true
    → HasImage force current ami
is_current-true true current ami h = ground arith
is_current-true false none ami h = ground arith
is_current-true false (some d) ami h =
    let (id, image, same) = image_is_lem d.image_id ami true h in
    (refl, d, id, refl, image, (eq_iff _ _).0 same)

is_current-false :
    (force : Bool) (current : Option LaunchTemplateData) (ami : String)
    → is_current force current ami ≡ ok false
    → (force ≡ true) ⊎ HasOther current ami
is_current-false true current ami h = inl refl
is_current-false false none ami h = ground arith
is_current-false false (some d) ami h =
    let (id, image, same) = image_is_lem d.image_id ami false h in
    inr (d, id, refl, image, λ e. ground (arith, (eq_iff (trim_prefix id "$Latest-") ami).1 e))

first_version_lem :
    (versions : List (Option LaunchTemplateData)) (current : Option LaunchTemplateData)
    → first_version versions ≡ ok current
    → (others : List (Option LaunchTemplateData)) × (versions ≡ current ∷ others)
first_version_lem [] current h = ground arith
first_version_lem (v ∷ vs) current h = (vs, ground arith)

module _ {W : Type 0} (env : Env W) (m : ManagerRefresh) (group ami : String)
    (c : UpdateConfig) where
  inspect-IsRead :
      (t : LaunchTemplate) (b : Bool) (w w' : W)
      → inspect env m group ami c w ≡ (ok (t, b), w')
      → (current : Option LaunchTemplateData) × IsRead env m group c t current w w'
        × (is_current c.force current ami ≡ ok b)
  unfolding inspect pure
  inspect-IsRead t b w w' h =
      let (_, w₁, live, h₁) = bind-eq-ok _ _ w w' (t, b) h in
      let (_, w₂, configured, h₂) = bind-eq-ok _ _ w₁ w' (t, b) h₁ in
      let (described, w₃, group_read, h₃) = bind-eq-ok _ _ w₂ w' (t, b) h₂ in
      let (_, w₄, still_live, h₄) = bind-eq-ok _ _ w₃ w' (t, b) h₃ in
      let (t', on_template, h₅) = bind_lift-eq-ok _ _ w₄ w' (t, b) h₄ in
      let (versions, w₅, made, h₆) = bind-eq-ok _ _ w₄ w' (t, b) h₅ in
      let (current, first, h₇) = bind_lift-eq-ok _ _ w₅ w' (t, b) h₆ in
      let (b', judged, h₈) = bind_lift-eq-ok _ _ w₅ w' (t, b) h₇ in
      let (others, same) = first_version_lem versions current first in
      let met : ◌≡◌ {A = LaunchTemplate × Bool} (t', b') (t, b) = ground arith in
      coe 0 1
        (i.
          (current : Option LaunchTemplateData) × IsRead env m group c (met i).0 current w (h₈ i).1
          × (is_current c.force current ami ≡ ok (met i).1))
        (
          current,
          record {
            described = described;
            others = others;
            w₁ = w₁;
            w₂ = w₂;
            w₃ = w₃;
            w₄ = w₄;
            live = live;
            configured = configured;
            group_read = group_read;
            on_template = on_template;
            still_live = still_live;
            versions_read = map_error-eq-ok _ _ w₄ w₅ versions made ∙ (λ i. (ok (same i), w₅));
          },
          judged,
        )

  roll_out-IsRolledOut :
      (t : LaunchTemplate) (w w' : W)
      → roll_out env m group ami c t w ≡ (ok tt, w')
      → IsRolledOut env m group ami c t w w'
  unfolding roll_out
  roll_out-IsRolledOut t w w' h =
      let (created, w₁, made, h₁) = bind-eq-ok _ _ w w' tt h in
      let (number, numbered, h₂) = bind_lift-eq-ok _ _ w₁ w' tt h₁ in
      let (_, w₂, live, h₃) = bind-eq-ok _ _ w₁ w' tt h₂ in
      let (_, w₃, updated, waited) = bind-eq-ok _ _ w₂ w' tt h₃ in
      record {
        created = created;
        number = number;
        w₁ = w₁;
        w₂ = w₂;
        w₃ = w₃;
        version_created = map_error-eq-ok _ _ w w₁ created made;
        numbered = numbered;
        live = live;
        group_updated = updated;
        waited = waited;
      }

  -- A successful update found the launch template of the group and the first of its versions, and
  -- either it was not forced and this version has the image, and it did nothing more, or it was forced
  -- or this version has another image, and it made a version of the template with the image and put
  -- the group on it.
  pub update_node_group_ami-eq-ok :
      (w w' : W)
      → update_node_group_ami env (some m) group ami c w ≡ (ok tt, w')
      → (t : LaunchTemplate) × (current : Option LaunchTemplateData) × (w₁ : W) × IsRead env m group
          c t current w w₁
        × ((HasImage c.force current ami × (w₁ ≡ w'))
            ⊎ ((c.force ≡ true) ⊎ HasOther current ami) × IsRolledOut env m group ami c t w₁ w')
  unfolding update_node_group_ami update_some pure
  update_node_group_ami-eq-ok w w' h =
      let ((t, up_to_date), w₁, found, rest) = bind-eq-ok (inspect env m group ami c) _ w w' tt h in
      let (current, read, judged) = inspect-IsRead t up_to_date w w₁ found in
      (t, current, w₁, read, go up_to_date t current w₁ judged rest)
    where
      go :
          (b : Bool) (t : LaunchTemplate) (current : Option LaunchTemplateData) (w₁ : W)
          → is_current c.force current ami ≡ ok b
          → (if b then pure tt else roll_out env m group ami c t) w₁ ≡ (ok tt, w')
          → (HasImage c.force current ami × (w₁ ≡ w'))
            ⊎ ((c.force ≡ true) ⊎ HasOther current ami) × IsRolledOut env m group ami c t w₁ w'
      go true t current w₁ e h = inl (is_current-true c.force current ami e, λ i. (h i).1)
      go false t current w₁ e h =
          inr (is_current-false c.force current ami e, roll_out-IsRolledOut t w₁ w' h)
