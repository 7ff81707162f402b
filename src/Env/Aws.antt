-- ===== src/Env/Aws.antt =====
-- The EC2 and EKS data that the managers read and write.
use opsy_ami_operator.Prelude.{String, Option, List}

-- A nil pointer is `none`.
pub record Tag : Type 0 where
  pub key : Option String
  pub value : Option String

pub record Image : Type 0 where
  pub image_id : String
  pub creation_date : Option String
  pub tags : List Tag

pub record Filter : Type 0 where
  pub name : String
  pub values : List String

-- LaunchTemplateSpecification
pub record LaunchTemplate : Type 0 where
  pub name : Option String
  pub version : Option String

-- ResponseLaunchTemplateData
pub record LaunchTemplateData : Type 0 where
  pub image_id : Option String

pub data NodegroupStatus : Type 0 where
  active degraded creating updating deleting : NodegroupStatus
  other : String → NodegroupStatus

pub record Nodegroup : Type 0 where
  pub launch_template : Option LaunchTemplate
  pub status : NodegroupStatus
