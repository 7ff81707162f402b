-- ===== src/Cond.antt =====
-- pkg/cond/cond.go: one condition of each type in the status of an object.
pub mod Upsert
use opsy_ami_operator.Prelude.{
  String, Bool, true, false, not, List, [], ◌∷◌, ◌++◌, ◌||◌, ◌==◌, if◌then◌else◌,
}
use opsy_ami_operator.Prelude.Int.{ltb_ℤ}
use opsy_ami_operator.Go.{Exec}
use opsy_ami_operator.Api.Conditions.{
  Time, OpsyConditionType, OpsyConditionType-discrete, ConditionStatus, OpsyCondition,
}
use opsy_ami_operator.Env.{StatusClient, Env}
use mathlib.Core.Logic.{ite}
use opsy_ami_operator.Status
use opsy_ami_operator.Status.{HasStatus}

-- cond.ConditionSetter; the object's status is copied too when it is written.
pub record ConditionSetter (O : Type 0) : Type 0 where
  pub has_status : HasStatus O
  pub get_conditions : O → List OpsyCondition
  pub set_conditions : List OpsyCondition → O → O

-- cond.ConditionManager, with a client of type `K`; `cond.New`.
pub record ConditionManager (K : Type 0) : Type 0 where
  pub client : K

unfoldable pub new : {K : Type 0} → K → ConditionManager K
new client = record { client = client }

abbrev pub status_beq : ConditionStatus → ConditionStatus → Bool
status_beq ConditionStatus.condition_true ConditionStatus.condition_true = true
status_beq ConditionStatus.condition_false ConditionStatus.condition_false = true
status_beq ConditionStatus.condition_unknown ConditionStatus.condition_unknown = true
status_beq _ _ = false

abbrev differs : ConditionStatus → String → String → OpsyCondition → Bool
differs status reason message c =
    not (status_beq c.status status) || not (c.reason == reason) || not (c.message == message)

-- The body of the loop at the condition of the type: the time moves only with a change.
unfoldable pub refresh : Time → ConditionStatus → String → String → OpsyCondition → OpsyCondition
refresh now status reason message c =
    if differs status reason message c
    then record c {
      status = status;
      last_transition_time = now;
      reason = reason;
      message = message;
    }
    else c

-- The loop over the conditions, which stops at the first of the type, and the append after it.
unfoldable pub upsert :
    Time
    → OpsyConditionType
    → ConditionStatus
    → String
    → String
    → List OpsyCondition
    → List OpsyCondition
upsert now type status reason message [] =
    (record {
      type = type;
      status = status;
      last_transition_time = now;
      reason = reason;
      message = message;
    })
    ∷ []
upsert now type status reason message (c ∷ cs) =
    let rest = upsert now type status reason message cs in
    ite (OpsyConditionType-discrete c.type type) (refresh now status reason message c ∷ cs)
      (c ∷ rest)

-- The order of `sort.Slice`: the latest transition first.
abbrev pub later_first : OpsyCondition → OpsyCondition → Bool
later_first a b = ltb_ℤ b.last_transition_time a.last_transition_time

module _ {O W : Type 0} (s : ConditionSetter O) (c : StatusClient O W) (env : Env W) where
  -- The object in memory after the call, which has the conditions also if the update fails.
  unfoldable pub set_condition :
      OpsyConditionType → ConditionStatus → String → String → Exec (O × W) (Unit {0})
  set_condition type status reason message (obj, w) =
      let (now, w₁) = env.now w in
      let sorted =
        env.sort_slice later_first (upsert now type status reason message (s.get_conditions obj)) in
      let obj' = s.set_conditions sorted obj in
      let (r, w₂) = Status.update s.has_status c obj' w₁ in (r, (obj', w₂))
