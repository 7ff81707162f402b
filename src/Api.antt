-- ===== src/Api.antt =====
-- api/ami/v1alpha1: the custom resources and the texts of their enumerations.
pub mod Commands
pub mod Conditions
pub mod States
use opsy_ami_operator.Prelude.{String, Bool, Option, List, [], ◌∷◌}
use opsy_ami_operator.Prelude.Int.{ℤ}
use opsy_ami_operator.Api.Commands.{Command}
use opsy_ami_operator.Api.Conditions.{OpsyCondition, Time}
use opsy_ami_operator.Api.States.{PackerBuilderState, LastRunStatus, JobStatus, ImageType}

-- metav1.ObjectMeta: the fields that the operator reads or writes.
pub record ObjectMeta : Type 0 where
  pub name : String
  pub namespace : String
  pub deletion_timestamp : Option Time
  pub finalizers : List String

pub record ObjectReference : Type 0 where
  pub kind : String
  pub namespace : String
  pub name : String

pub record AmiFilters : Type 0 where
  pub name : String
  pub values : List String

pub record TimeOuts : Type 0 where
  pub expires_in : String
  pub controller_timer : String

-- `none` is the nil slice, which `reflect.DeepEqual` tells apart from an empty one.
pub record SlackNotifier : Type 0 where
  pub channels : Option (List String)
  pub secret : String

pub record Notify : Type 0 where
  pub slack : SlackNotifier

pub record Sync : Type 0 where
  pub image : String
  pub name : String
  pub secret : String

pub record Builder : Type 0 where
  pub branch : String
  pub commands : List Command
  pub debug : Bool
  pub dir : String
  pub image : String
  pub image_type : ImageType
  pub repo_url : String
  pub secret : String
  pub job_service_account_name : String

-- `ami_filters` is `none` for the nil slice, which `updateCommand` tests for.
pub record PackerBuilderSpec : Type 0 where
  pub ami_filters : Option (List AmiFilters)
  pub cluster_name : String
  pub time_outs : TimeOuts
  pub git_sync : Sync
  pub notify : Notify
  pub region : String
  pub builder : Builder

-- A nil `*int32` is `none`.
pub record PackerBuilderStatus : Type 0 where
  pub active : List ObjectReference
  pub build_id : String
  pub command : String
  pub conditions : List OpsyCondition
  pub failed_job_count : Option ℤ
  pub job_id : String
  pub job_name : String
  pub job_status : JobStatus
  pub last_run : Time
  pub last_run_base_image_id : String
  pub last_run_built_image_id : String
  pub last_run_message : String
  pub last_run_status : LastRunStatus
  pub last_run_security_group_id : String
  pub last_run_key_pair : String
  pub max_number_of_failed_jobs : Option ℤ
  pub state : PackerBuilderState

pub record PackerBuilder : Type 0 where
  pub meta : ObjectMeta
  pub spec : PackerBuilderSpec
  pub status : PackerBuilderStatus

pub record RefreshConfig : Type 0 where
  pub enable : Bool
  pub force : Bool
  pub max_unavailable : Option ℤ
  pub max_unavailable_percentage : Option ℤ
  pub wait_for_completion : Bool

pub record AmiRefresherSpec : Type 0 where
  pub region : String
  pub ami : String
  pub ami_filters : List AmiFilters
  pub cluster_name : String
  pub exclude : List String
  pub time_outs : TimeOuts
  pub refresh_config : RefreshConfig

pub record AmiRefresherStatus : Type 0 where
  pub conditions : List OpsyCondition
  pub last_run : Time
  pub last_run_status : LastRunStatus

pub record AmiRefresher : Type 0 where
  pub meta : ObjectMeta
  pub spec : AmiRefresherSpec
  pub status : AmiRefresherStatus

-- `GroupVersion` of groupversion_info.go.
abbrev pub group : String
group = "ami.opsy.dev"

abbrev pub version : String
version = "v1alpha1"

-- The types that the `init` functions register with `SchemeBuilder`, in the order of the files.
abbrev pub registered_types : List String
registered_types = "AMIRefresher" ∷ "AMIRefresherList" ∷ "PackerBuilder" ∷ "PackerBuilderList" ∷ []

-- metav1.ListMeta of a list is not read.
pub record AmiRefresherList : Type 0 where
  pub items : List AmiRefresher

pub record PackerBuilderList : Type 0 where
  pub items : List PackerBuilder

unfoldable pub get_controller_timer : PackerBuilder → String
get_controller_timer pb = pb.spec.time_outs.controller_timer
