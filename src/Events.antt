-- ===== src/Events.antt =====
-- pkg/events/events.go: events on objects. The mutex makes each call one step.
use opsy_ami_operator.Prelude.{String}

-- `Event` of record.EventRecorder: the object, the type, the reason and the message.
abbrev pub EventRecorder : Type 0 → Type 0 → Type 0
EventRecorder O W = O → String → String → String → W → W

pub record EventManager (O W : Type 0) : Type 0 where
  pub recorder : EventRecorder O W

module _ {O W : Type 0} where
  unfoldable pub new : EventRecorder O W → EventManager O W
  new recorder = record { recorder = recorder }

  unfoldable pub record_event : EventManager O W → EventRecorder O W
  record_event em object event_type reason message w =
      em.recorder object event_type reason message w

  unfoldable pub record_normal_event : EventManager O W → O → String → String → W → W
  unfolding record_event
  record_normal_event em object reason message w = record_event em object "Normal" reason message w

  unfoldable pub record_warning_event : EventManager O W → O → String → String → W → W
  unfolding record_event
  record_warning_event em object reason message w =
      record_event em object "Warning" reason message w
