-- ===== src/Api/Conditions.antt =====
-- ami_conditions.go: conditions of a custom resource.
use opsy_ami_operator.Prelude.{String, Option, none, some}
use opsy_ami_operator.Prelude.Int.{ℤ, pos}

-- Nanoseconds since Go's zero time, the first of January of year 1.
abbrev pub Time : Type 0
Time = ℤ

abbrev pub Duration : Type 0
Duration = ℤ

-- A duration whose parse error is dropped is 0.
abbrev pub or_zero : Option Duration → Duration
or_zero none = pos 0
or_zero (some d) = d

pub data OpsyConditionType : Type 0 where
  ami_updated ami_created ami_update_failed ami_update_started : OpsyConditionType
  ami_update_succeeded build_failed build_started build_succeeded : OpsyConditionType
  cancelled initial completed failed flight_check_failed : OpsyConditionType
  flight_check_passed job_completed in_progress job_created : OpsyConditionType
  job_failed max_failed_jobs_reached flight_check_started : OpsyConditionType

pub OpsyConditionType-discrete : Discrete OpsyConditionType
OpsyConditionType-discrete = hlevel

-- corev1.ConditionStatus
pub data ConditionStatus : Type 0 where
  condition_true condition_false condition_unknown : ConditionStatus

pub record OpsyCondition : Type 0 where
  pub type : OpsyConditionType
  pub status : ConditionStatus
  pub last_transition_time : Time
  pub reason : String
  pub message : String

-- The methods of a condition. One on a pointer changes the condition in place.
abbrev get_type : OpsyCondition → OpsyConditionType
get_type c = c.type

abbrev get_status : OpsyCondition → ConditionStatus
get_status c = c.status

abbrev get_last_transition_time : OpsyCondition → Time
get_last_transition_time c = c.last_transition_time

abbrev get_reason : OpsyCondition → String
get_reason c = c.reason

abbrev get_message : OpsyCondition → String
get_message c = c.message

abbrev set_status : ConditionStatus → OpsyCondition → OpsyCondition
set_status status c = record c { status = status }

abbrev set_last_transition_time : Time → OpsyCondition → OpsyCondition
set_last_transition_time t c = record c { last_transition_time = t }

abbrev set_reason : String → OpsyCondition → OpsyCondition
set_reason reason c = record c { reason = reason }

abbrev set_message : String → OpsyCondition → OpsyCondition
set_message message c = record c { message = message }

abbrev set_type : OpsyConditionType → OpsyCondition → OpsyCondition
set_type type c = record c { type = type }
