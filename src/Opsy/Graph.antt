-- ===== src/Opsy/Graph.antt =====
-- opsy.go: the transition table against the diagram of a build's life, and the laws of the map.
use opsy_ami_operator.Prelude.{
  String, ◌≡◌, refl, ◌≢◌, ◌↔◌, Bool, true, false, ◌&&◌, ◌==◌, arith, eq_iff, if◌then◌else◌,
}
use opsy_ami_operator.Prelude.Maps.{lookup-put}
use opsy_ami_operator.Go.{ok}
use opsy_ami_operator.Api.States.{PackerBuilderState}
use opsy_ami_operator.Opsy.{OpsyRunner, is_valid_transition, get_current_state, set_state}

-- One of the eight constants.
abbrev pub IsKnown : PackerBuilderState → Type 0
IsKnown (PackerBuilderState.other _) = ⊥
IsKnown _ = Unit

-- The diagram: a build can always be reset, it can fail except after its image was created, and
-- a runner with no record of the build can resume it in one of three states.
infix 40 ◌⟶◌ ◌⟶*◌
pub data ◌⟶◌ (s t : PackerBuilderState) : Type 0 where
  reset : IsKnown s → t ≡ PackerBuilderState.initial → s ⟶ t
  fail : IsKnown s → s ≢ PackerBuilderState.ami_created → t ≡ PackerBuilderState.error → s ⟶ t
  check : s ≡ PackerBuilderState.initial → t ≡ PackerBuilderState.flight_checks → s ⟶ t
  create : s ≡ PackerBuilderState.flight_checks → t ≡ PackerBuilderState.job_creation → s ⟶ t
  join : s ≡ PackerBuilderState.flight_checks → t ≡ PackerBuilderState.job_running → s ⟶ t
  run : s ≡ PackerBuilderState.job_creation → t ≡ PackerBuilderState.job_running → s ⟶ t
  complete : s ≡ PackerBuilderState.job_running → t ≡ PackerBuilderState.job_completed → s ⟶ t
  lose : s ≡ PackerBuilderState.job_running → t ≡ PackerBuilderState.job_failed → s ⟶ t
  publish : s ≡ PackerBuilderState.job_completed → t ≡ PackerBuilderState.ami_created → s ⟶ t
  resume_creation : s ≡ PackerBuilderState.initial → t ≡ PackerBuilderState.job_creation → s ⟶ t
  resume_running : s ≡ PackerBuilderState.initial → t ≡ PackerBuilderState.job_running → s ⟶ t
  resume_completed : s ≡ PackerBuilderState.initial → t ≡ PackerBuilderState.job_completed → s ⟶ t

ruleset edges = (
  reset, fail, check, create, join, run, complete, lose, publish, resume_creation, resume_running,
  resume_completed,
)

valid_edge : (s t : PackerBuilderState) → is_valid_transition s t ≡ true → s ⟶ t
unfolding is_valid_transition
valid_edge s t h = grind (arith, edges)

reset_valid :
    (s : PackerBuilderState) → IsKnown s → is_valid_transition s PackerBuilderState.initial ≡ true
unfolding is_valid_transition
reset_valid PackerBuilderState.initial k = refl
reset_valid (PackerBuilderState.other x) k = absurd k
reset_valid _ k = refl

fail_valid :
    (s : PackerBuilderState)
    → IsKnown s
    → s ≢ PackerBuilderState.ami_created
    → is_valid_transition s PackerBuilderState.error ≡ true
unfolding is_valid_transition
fail_valid PackerBuilderState.initial k n = refl
fail_valid (PackerBuilderState.other x) k n = absurd k
fail_valid PackerBuilderState.ami_created k n = absurd (n refl)
fail_valid _ k n = refl

edge_valid : (s t : PackerBuilderState) → s ⟶ t → is_valid_transition s t ≡ true
unfolding is_valid_transition
edge_valid s t (reset k e) = rw e (reset_valid s k)
edge_valid s t (fail k n e) = rw e (fail_valid s k n)
edge_valid s t (check a b) = ground arith
edge_valid s t (create a b) = ground arith
edge_valid s t (join a b) = ground arith
edge_valid s t (run a b) = ground arith
edge_valid s t (complete a b) = ground arith
edge_valid s t (lose a b) = ground arith
edge_valid s t (publish a b) = ground arith
edge_valid s t (resume_creation a b) = ground arith
edge_valid s t (resume_running a b) = ground arith
edge_valid s t (resume_completed a b) = ground arith

-- The table that the runner is built with is the diagram: a transition is accepted exactly when
-- it is an edge.
pub is_valid_transition_iff :
    (s t : PackerBuilderState) → (is_valid_transition s t ≡ true) ↔ (s ⟶ t)
is_valid_transition_iff s t = (valid_edge s t, edge_valid s t)

-- After a call of `SetState` the state of every build is what it was, but for the build of the
-- call, which has the new state if the transition from its old one is valid.
pub get_current_state-set_state :
    (id j : String) (s : PackerBuilderState) (sm : OpsyRunner)
    → get_current_state (set_state id s sm).1 j ≡ (
        if (id == j) && is_valid_transition (get_current_state sm id) s
        then s
        else get_current_state sm j)
unfolding set_state
get_current_state-set_state id j s sm = ground (arith, lookup-put id j s sm.states, eq_iff id j)

set_state_ok :
    (id : String) (s : PackerBuilderState) (sm : OpsyRunner)
    → (set_state id s sm).0 ≡ ok tt
    → is_valid_transition (get_current_state sm id) s ≡ true
unfolding set_state
set_state_ok id s sm h = ground arith

set_state_valid :
    (id : String) (s : PackerBuilderState) (sm : OpsyRunner)
    → is_valid_transition (get_current_state sm id) s ≡ true
    → (set_state id s sm).0 ≡ ok tt
unfolding set_state
set_state_valid id s sm h = ground arith

-- `SetState` succeeds exactly when the transition is an edge of the diagram.
pub set_state_ok_iff :
    (id : String) (s : PackerBuilderState) (sm : OpsyRunner)
    → ((set_state id s sm).0 ≡ ok tt) ↔ (get_current_state sm id ⟶ s)
set_state_ok_iff id s sm =
    (λ h. valid_edge _ s (set_state_ok id s sm h), λ e. set_state_valid id s sm (edge_valid _ s e))

-- The runner forgets nothing: the state of each build after it is reached from the one before.
pub data ◌⟶*◌ (s : PackerBuilderState) : PackerBuilderState → Type 0 where
  here : s ⟶* s
  next : {t u : PackerBuilderState} → s ⟶* t → t ⟶ u → s ⟶* u

pub ⟶*_trans : {s t u : PackerBuilderState} → s ⟶* t → t ⟶* u → s ⟶* u
⟶*_trans p here = p
⟶*_trans p (next q e) = next (⟶*_trans p q) e

abbrev pub Progress : OpsyRunner → OpsyRunner → Type 0
Progress sm sm' = (id : String) → get_current_state sm id ⟶* get_current_state sm' id

pub Progress-refl : (sm : OpsyRunner) → Progress sm sm
Progress-refl sm id = here

pub Progress-trans : (a b c : OpsyRunner) → Progress a b → Progress b c → Progress a c
Progress-trans a b c p q id = ⟶*_trans (p id) (q id)

stay_or_step :
    {s t : PackerBuilderState} (b : Bool) → (b ≡ true → s ⟶ t) → s ⟶* (if b then t else s)
stay_or_step true e = next here (e refl)
stay_or_step false e = here

accepted_edge :
    (id j : String) (s : PackerBuilderState) (sm : OpsyRunner)
    → (id == j && is_valid_transition (get_current_state sm id) s) ≡ true
    → is_valid_transition (get_current_state sm j) s ≡ true
accepted_edge id j s sm h = ground (arith, eq_iff id j)

pub set_state-Progress :
    (id : String) (s : PackerBuilderState) (sm : OpsyRunner) → Progress sm (set_state id s sm).1
set_state-Progress id s sm j = rw get_current_state-set_state (
    stay_or_step (id == j && is_valid_transition (get_current_state sm id) s)
      (λ h. valid_edge _ s (accepted_edge id j s sm h)))
