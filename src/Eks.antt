-- ===== src/Eks.antt =====
-- pkg/manager_eks/eks.go: the manager, the node groups of a cluster and the choice among them.
pub mod Trim
pub mod Wait
pub mod Update
use opsy_ami_operator.Prelude.{
  String, Bool, true, false, Option, none, some, List, [], ◌∷◌, ◌==◌, leb, length, if◌then◌else◌,
}
use opsy_ami_operator.Prelude.Int.{ℤ}
use opsy_ami_operator.Go.{
  Exec, Error, Result, ok, panics, errorf, pure, raise, panic, handling, has_code,
}
use opsy_ami_operator.Client.{client_aws}
use opsy_ami_operator.Env.{Env}

-- A `*ManagerRefresh`; nil, when the AWS configuration cannot be loaded, is `none`.
pub record ManagerRefresh : Type 0 where
  pub cluster_name : String

pub record UpdateConfig : Type 0 where
  pub enable : Bool
  pub force : Bool
  pub wait_for_completion : Bool
  pub max_unavailable : Option ℤ
  pub max_unavailable_percentage : Option ℤ

-- Membership in the map `excludeMap`, whose keys are the names.
abbrev pub is_excluded : List String → String → Bool
is_excluded [] group = false
is_excluded (name ∷ names) group = if name == group then true else is_excluded names group

-- The loop of `TrimNodeGroups`.
abbrev pub trimmed : List String → List String → List String
trimmed names [] = []
trimmed names (group ∷ groups) =
    let rest = trimmed names groups in if is_excluded names group then rest else group ∷ rest

-- `TrimNodeGroups`; a slice cannot be made with a capacity below 0.
unfoldable pub trim_node_groups : List String → List String → Result (List String)
trim_node_groups groups names =
    if leb (length names) (length groups) then ok (trimmed names groups) else panics

module _ {W : Type 0} (env : Env W) where
  -- `New`
  unfoldable pub new : String → String → Exec W (Option ManagerRefresh)
  new region cluster_name =
      handling (client_aws env region) (λ _. pure none)
        (λ _. pure (some (record { cluster_name = cluster_name })))

  abbrev pub list_error : String → Error → Error
  list_error cluster e =
      if has_code "ResourceNotFoundException" e.cause
      then errorf ("cluster " ∷ cluster ∷ " not found" ∷ [])
      else errorf ("failed to list node groups: " ∷ e.message ∷ [])

  -- `ListNodeGroups`; the client of a nil manager is read through.
  unfoldable pub list_node_groups : Option ManagerRefresh → String → Exec W (List String)
  list_node_groups none cluster = panic
  list_node_groups (some m) cluster =
      handling (env.list_nodegroups cluster) (λ e. raise (list_error cluster e)) pure
