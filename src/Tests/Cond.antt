-- ===== src/Tests/Cond.antt =====
-- Runs of cond.go.
use mathlib.Core.Logic.{ite}
use opsy_ami_operator.Prelude.{◌≡◌, refl, some, List, [], ◌∷◌}
use opsy_ami_operator.Prelude.Int.{pos}
use opsy_ami_operator.Api.Conditions.{
  OpsyCondition, OpsyConditionType, OpsyConditionType-discrete, ConditionStatus,
}
use opsy_ami_operator.Cond.{upsert}
use opsy_ami_operator.Cond.Upsert.{
  find_condition, IsUnique, updated, find_condition-upsert, upsert-IsUnique,
}

abbrev started : List OpsyCondition
started =
    (record {
      type = OpsyConditionType.initial;
      status = ConditionStatus.condition_true;
      last_transition_time = pos 1;
      reason = "Starting";
      message = "";
    })
    ∷ []

find_condition-upsert_example :
    find_condition OpsyConditionType.initial
      (upsert (pos 2) OpsyConditionType.failed ConditionStatus.condition_true "Error" "m" started)
    ≡ ite
        (OpsyConditionType-discrete OpsyConditionType.failed OpsyConditionType.initial)
        (some (
          updated
            (pos 2)
            OpsyConditionType.failed
            ConditionStatus.condition_true
            "Error"
            "m"
            (find_condition OpsyConditionType.failed started)))
        (find_condition OpsyConditionType.initial started)
find_condition-upsert_example =
    find_condition-upsert (pos 2) OpsyConditionType.failed ConditionStatus.condition_true "Error"
      "m" OpsyConditionType.initial started

upsert-IsUnique_example :
    IsUnique
      (upsert (pos 2) OpsyConditionType.initial ConditionStatus.condition_false "Error" "m" started)
upsert-IsUnique_example =
    upsert-IsUnique (pos 2) OpsyConditionType.initial ConditionStatus.condition_false "Error" "m"
      started (refl, tt)
