-- ===== src/Eks/Update.antt =====
-- pkg/manager_eks/eks.go: a new image for a node group.
pub mod Writes
pub mod Rolled
use opsy_ami_operator.Prelude.{
  String, Bool, true, false, Option, none, some, List, [], ◌∷◌, ◌==◌, if◌then◌else◌,
}
use opsy_ami_operator.Prelude.Int.{ℤ, pos}
use opsy_ami_operator.Prelude.Texts.{trim_prefix}
use opsy_ami_operator.Go.{
  Exec, Error, Result, ok, err, panics, errorf, wrap, pure, raise, panic, lift, total, when,
  map_error, ◌>>=◌, ◌>>◌,
}
use opsy_ami_operator.Env.{Env}
use opsy_ami_operator.Env.Aws.{Nodegroup, LaunchTemplate, LaunchTemplateData}
use opsy_ami_operator.Eks.{ManagerRefresh, UpdateConfig}
use opsy_ami_operator.Eks.Wait.{wait_for_update_completion}

-- aws.ToString, aws.ToInt64
abbrev pub to_string : Option String → String
to_string none = ""
to_string (some s) = s

abbrev to_int64 : Option ℤ → ℤ
to_int64 none = pos 0
to_int64 (some n) = n

-- `nodeGroup.Nodegroup.LaunchTemplate`, which is read through.
abbrev pub template_of : Option Nodegroup → Result LaunchTemplate
template_of none = panics
template_of (some g) = elim g.launch_template [ none ↦ panics | some t ↦ ok t ]

abbrev pub first_version : List (Option LaunchTemplateData) → Result (Option LaunchTemplateData)
first_version [] = err (errorf ("no launch template versions found" ∷ []))
first_version (v ∷ vs) = ok v

-- `!updateConfig.Force && strings.TrimPrefix(*currentVersion.ImageId, "$Latest-") == newAMIID`
abbrev pub image_is : Option String → String → Result Bool
image_is none ami = panics
image_is (some id) ami = ok (trim_prefix id "$Latest-" == ami)

abbrev pub is_current : Bool → Option LaunchTemplateData → String → Result Bool
is_current true current ami = ok false
is_current false none ami = panics
is_current false (some d) ami = image_is d.image_id ami

abbrev version_number : Option (Option ℤ) → Result ℤ
version_number none = panics
version_number (some n) = ok (to_int64 n)

-- `MaxUnavailable` after the default; the percentage is only tested.
abbrev pub default_max_unavailable : UpdateConfig → Option ℤ
default_max_unavailable c = elim c.max_unavailable [
  | some n ↦ some n
  | none ↦ elim c.max_unavailable_percentage [ none ↦ some (pos 1) | some _ ↦ none ]
]

module _ {W : Type 0} (env : Env W) where
  abbrev raise_if : Option Error → Exec W (Unit {0})
  raise_if none = pure tt
  raise_if (some e) = raise e

  -- `if err := ctx.Err(); err != nil { return err }`
  unfoldable pub check_context : Exec W (Unit {0})
  check_context = total env.context_error >>= raise_if

  module _ (m : ManagerRefresh) (group : String) where
    -- `updateNodeGroupConfig`
    unfoldable pub update_node_group_config : UpdateConfig → Exec W (Unit {0})
    update_node_group_config c =
        when c.enable (env.update_nodegroup_config m.cluster_name group (default_max_unavailable c))

    -- `UpdateNodeGroupAMI` from the new version of the template on.
    unfoldable pub roll_out : String → UpdateConfig → LaunchTemplate → Exec W (Unit {0})
    roll_out ami c t = do
      created ←
          map_error (wrap "failed to create new launch template version")
            (env.create_launch_template_version (to_string t.name) (to_string t.version) ami)
      number ← lift (version_number created)
      check_context
      env.update_nodegroup_version m.cluster_name group (env.format_decimal number)
      when c.wait_for_completion (check_context >> wait_for_update_completion env m group)

    -- `UpdateNodeGroupAMI` up to the test of the current image: the template of the group and
    -- whether it has the image.
    unfoldable pub inspect : String → UpdateConfig → Exec W (LaunchTemplate × Bool)
    inspect ami c = do
      check_context
      update_node_group_config c
      described ← env.describe_nodegroup m.cluster_name group
      check_context
      t ← lift (template_of described)
      versions ←
          map_error (wrap "failed to describe launch template version")
            (env.describe_launch_template_versions (to_string t.name) (to_string t.version))
      current ← lift (first_version versions)
      up_to_date ← lift (is_current c.force current ami)
      pure (t, up_to_date)

    unfoldable pub update_some : String → UpdateConfig → Exec W (Unit {0})
    unfolding inspect roll_out
    update_some ami c =
        inspect ami c >>= λ (t, up_to_date). if up_to_date then pure tt else roll_out ami c t

  -- `UpdateNodeGroupAMI`; the log of a nil manager is read through.
  unfoldable pub update_node_group_ami :
      Option ManagerRefresh → String → String → UpdateConfig → Exec W (Unit {0})
  update_node_group_ami none group ami c = panic
  update_node_group_ami (some m) group ami c = update_some m group ami c
