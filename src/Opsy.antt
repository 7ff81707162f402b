-- ===== src/Opsy.antt =====
-- pkg/opsy/opsy.go: the state of each build and the transitions that are valid. The mutex makes
-- each method one step, so a method is a function on the map.
pub mod Graph
pub mod Runs
use opsy_ami_operator.Prelude.{
  String, Bool, true, false, Option, none, some, List, [], ◌∷◌, ◌==◌, if◌then◌else◌,
}
use opsy_ami_operator.Prelude.Maps.{lookup, put}
use opsy_ami_operator.Go.{Error, Result, ok, err, errorf}
use opsy_ami_operator.Api.States.{PackerBuilderState, state_text, state_beq}

pub record OpsyRunner : Type 0 where
  pub states : List (String × PackerBuilderState)

-- `opsy.New`; the transition table is `transitions` below.
unfoldable pub new : OpsyRunner
new = record { states = [] }

-- The table that `New` builds; a key that is missing has no list.
unfoldable pub transitions : PackerBuilderState → Option (List PackerBuilderState)
transitions PackerBuilderState.initial = some (
    PackerBuilderState.initial ∷ PackerBuilderState.flight_checks ∷ PackerBuilderState.error
    ∷ PackerBuilderState.job_running ∷ PackerBuilderState.job_completed
    ∷ PackerBuilderState.job_creation ∷ [])
transitions PackerBuilderState.flight_checks = some (
    PackerBuilderState.initial ∷ PackerBuilderState.job_creation ∷ PackerBuilderState.job_running
    ∷ PackerBuilderState.error ∷ [])
transitions PackerBuilderState.job_creation =
    some
      (PackerBuilderState.initial ∷ PackerBuilderState.job_running ∷ PackerBuilderState.error ∷ [])
transitions PackerBuilderState.job_running = some (
    PackerBuilderState.initial ∷ PackerBuilderState.job_completed ∷ PackerBuilderState.job_failed
    ∷ PackerBuilderState.error ∷ [])
transitions PackerBuilderState.job_completed =
    some
      (PackerBuilderState.initial ∷ PackerBuilderState.ami_created ∷ PackerBuilderState.error ∷ [])
transitions PackerBuilderState.job_failed =
    some (PackerBuilderState.initial ∷ PackerBuilderState.error ∷ [])
transitions PackerBuilderState.ami_created = some (PackerBuilderState.initial ∷ [])
transitions PackerBuilderState.error =
    some (PackerBuilderState.initial ∷ PackerBuilderState.error ∷ [])
transitions (PackerBuilderState.other s) = none

-- The loop of `isValidTransition` over the list.
abbrev contains_state : PackerBuilderState → List PackerBuilderState → Bool
contains_state s [] = false
contains_state s (t ∷ ts) = if state_beq t s then true else contains_state s ts

unfoldable pub is_valid_transition : PackerBuilderState → PackerBuilderState → Bool
unfolding transitions
is_valid_transition current s = elim (transitions current) [
  | none ↦ false
  | some valid ↦ contains_state s valid
]

abbrev or_initial : Option PackerBuilderState → PackerBuilderState
or_initial none = PackerBuilderState.initial
or_initial (some s) = s

unfoldable pub get_current_state : OpsyRunner → String → PackerBuilderState
get_current_state sm id = or_initial (lookup id sm.states)

unfoldable pub set_state : String → PackerBuilderState → OpsyRunner → Result (Unit {0}) × OpsyRunner
unfolding get_current_state
set_state id s sm =
    let current = get_current_state sm id in
    if is_valid_transition current s then (ok tt, record { states = put id s sm.states }) else (
      err (
          errorf (
            "invalid state transition from "
            ∷ state_text current
            ∷ " to "
            ∷ state_text s
            ∷ " for id "
            ∷ id
            ∷ [])),
      sm,
    )

unfoldable pub default_state : String → OpsyRunner → OpsyRunner
default_state id sm = record { states = put id PackerBuilderState.initial sm.states }
