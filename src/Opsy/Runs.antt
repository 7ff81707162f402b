-- ===== src/Opsy/Runs.antt =====
-- opsy.go: what a client of the runner sees over any sequence of calls.
use opsy_ami_operator.Prelude.{
  String, List, [], ◌∷◌, ◌≡◌, refl, ◌∙◌, ap, ◌==◌, ◌&&◌, arith, if◌then◌else◌,
}
use opsy_ami_operator.Prelude.Maps.{lookup-put}
use opsy_ami_operator.Api.States.{PackerBuilderState}
use opsy_ami_operator.Opsy.{
  OpsyRunner, new, is_valid_transition, get_current_state, set_state, default_state,
}
use opsy_ami_operator.Opsy.Graph.{get_current_state-set_state}

-- A call that writes.
pub data Call : Type 0 where
  set_call : String → PackerBuilderState → Call
  default_call : String → Call

unfoldable pub run : List Call → OpsyRunner → OpsyRunner
run [] sm = sm
run (set_call id s ∷ calls) sm = run calls (set_state id s sm).1
run (default_call id ∷ calls) sm = run calls (default_state id sm)

-- A state for each build, as a function: what the runner promises, without its map.
abbrev pub States : Type 0
States = String → PackerBuilderState

-- A refused transition changes nothing.
abbrev pub apply : Call → States → States
apply (set_call id s) f j = if (id == j) && is_valid_transition (f id) s then s else f j
apply (default_call id) f j = if id == j then PackerBuilderState.initial else f j

abbrev pub replay : List Call → States → States
replay [] f = f
replay (c ∷ calls) f = replay calls (apply c f)

get_current_state-default_state :
    (id j : String) (sm : OpsyRunner)
    → get_current_state (default_state id sm) j
      ≡ (if id == j then PackerBuilderState.initial else get_current_state sm j)
unfolding get_current_state default_state
get_current_state-default_state id j sm =
    ground (arith, lookup-put id j PackerBuilderState.initial sm.states)

run-replay :
    (calls : List Call) (sm : OpsyRunner)
    → get_current_state (run calls sm) ≡ replay calls (get_current_state sm)
unfolding run
run-replay [] sm = refl
run-replay (set_call id s ∷ calls) sm =
    run-replay calls (set_state id s sm).1
    ∙ ap (replay calls) (λ i j. get_current_state-set_state id j s sm i)
run-replay (default_call id ∷ calls) sm =
    run-replay calls (default_state id sm)
    ∙ ap (replay calls) (λ i j. get_current_state-default_state id j sm i)

-- After any sequence of calls on a new runner, it gives for every build the state that the same
-- calls give on a function that starts at `Initial` everywhere.
pub run-new_refines :
    (calls : List Call) (id : String)
    → get_current_state (run calls new) id ≡ replay calls (λ _. PackerBuilderState.initial) id
unfolding get_current_state new
run-new_refines calls id = λ i. run-replay calls new i id
