-- ===== src/Tests/Opsy.antt =====
-- Runs of opsy.go.
use opsy_ami_operator.Prelude.{◌≡◌, ◌↔◌, true, List, [], ◌∷◌}
use opsy_ami_operator.Api.States.{PackerBuilderState}
use opsy_ami_operator.Opsy.{OpsyRunner, new, is_valid_transition, get_current_state}
use opsy_ami_operator.Opsy.Runs.{Call, set_call, default_call, run, replay, run-new_refines}
use opsy_ami_operator.Opsy.Graph.{◌⟶◌, is_valid_transition_iff}

abbrev one_build : OpsyRunner
one_build = record { states = ("b1", PackerBuilderState.flight_checks) ∷ [] }

is_valid_transition_iff_example :
    (is_valid_transition PackerBuilderState.job_running PackerBuilderState.job_completed ≡ true)
    ↔ (PackerBuilderState.job_running ⟶ PackerBuilderState.job_completed)
is_valid_transition_iff_example =
    is_valid_transition_iff PackerBuilderState.job_running PackerBuilderState.job_completed

abbrev calls : List Call
calls =
    set_call "b1" PackerBuilderState.flight_checks
    ∷ set_call "b1" PackerBuilderState.ami_created
    ∷ default_call "b2"
    ∷ []

run-new_refines_example :
    get_current_state (run calls new) "b1" ≡ replay calls (λ _. PackerBuilderState.initial) "b1"
run-new_refines_example = run-new_refines calls "b1"
