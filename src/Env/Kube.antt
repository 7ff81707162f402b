-- ===== src/Env/Kube.antt =====
-- The Kubernetes objects that the operator reads and writes: batchv1.Job with the parts that
-- job.go fills, its status, pods and secrets.
use opsy_ami_operator.Prelude.{String, Bool, Option, List}
use opsy_ami_operator.Prelude.Int.{ℤ}
use opsy_ami_operator.Api.Commands.{StringMap}
use opsy_ami_operator.Api.Conditions.{ConditionStatus}

pub data JobConditionType : Type 0 where
  complete failed : JobConditionType
  other : String → JobConditionType

pub record JobCondition : Type 0 where
  pub type : JobConditionType
  pub status : ConditionStatus
  pub message : String

pub record BatchJobStatus : Type 0 where
  pub conditions : List JobCondition
  pub succeeded : ℤ
  pub failed : ℤ

-- `valueFrom.secretKeyRef`
pub record SecretKeySelector : Type 0 where
  pub name : String
  pub key : String

pub record EnvVar : Type 0 where
  pub name : String
  pub value : String
  pub value_from : Option SecretKeySelector

pub record VolumeMount : Type 0 where
  pub name : String
  pub mount_path : String
  pub read_only : Bool

pub record Container : Type 0 where
  pub name : String
  pub image : String
  pub image_pull_policy : String
  pub command : List String
  pub args : List String
  pub working_dir : String
  pub env : List EnvVar
  pub pre_stop : List String
  pub volume_mounts : List VolumeMount

pub record PodTemplate : Type 0 where
  pub labels : StringMap
  pub name : String
  pub restart_policy : String
  pub init_containers : List Container
  pub service_account_name : String
  pub containers : List Container
  pub volumes : List String

pub record JobSpec : Type 0 where
  pub pod_replacement_policy : String
  pub ttl_seconds_after_finished : ℤ
  pub completions : ℤ
  pub backoff_limit : ℤ
  pub template : PodTemplate

pub record Job : Type 0 where
  pub name : String
  pub namespace : String
  pub labels : StringMap
  pub spec : JobSpec
  pub status : BatchJobStatus
