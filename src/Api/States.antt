-- ===== src/Api/States.antt =====
-- packerbuilder_types.go, lastrun_types.go: the enumerations of the status. A Go string type holds
-- any text: `other` stands for a text that is none of the constants, the empty one included.
use opsy_ami_operator.Prelude.{String, Bool, true, false, ◌==◌}

pub data PackerBuilderState : Type 0 where
  initial flight_checks job_creation job_running job_completed : PackerBuilderState
  job_failed ami_created error : PackerBuilderState
  other : String → PackerBuilderState

-- The constant's text, `string(pb.Status.State)`.
unfoldable pub state_text : PackerBuilderState → String
state_text initial = "Initial"
state_text flight_checks = "FlightChecks"
state_text job_creation = "JobCreation"
state_text job_running = "JobRunning"
state_text job_completed = "JobCompleted"
state_text job_failed = "JobFailed"
state_text ami_created = "AMICreated"
state_text error = "Error"
state_text (other s) = s

-- `==` of two states.
abbrev pub state_beq : PackerBuilderState → PackerBuilderState → Bool
state_beq initial initial = true
state_beq flight_checks flight_checks = true
state_beq job_creation job_creation = true
state_beq job_running job_running = true
state_beq job_completed job_completed = true
state_beq job_failed job_failed = true
state_beq ami_created ami_created = true
state_beq error error = true
state_beq (other s) (other t) = s == t
state_beq _ _ = false

-- `pb.Status.State == ""`
abbrev pub is_unset : PackerBuilderState → Bool
is_unset (other s) = s == ""
is_unset _ = false

pub data LastRunStatus : Type 0 where
  completed failed running unset : LastRunStatus

pub data JobStatus : Type 0 where
  completed failed running unset : JobStatus

pub data ImageType : Type 0 where
  ami container : ImageType
  other : String → ImageType
