-- ===== src/Cond/Upsert.antt =====
-- cond.go: what the conditions of an object say after `SetCondition`.
use mathlib.Core.Logic.{ite, if_pos, if_neg}
use opsy_ami_operator.Prelude.{
  String, Bool, true, false, ◌&&◌, ◌==◌, eq_iff, if◌then◌else◌, ◌≡◌, refl, sym, Option, none, some,
  List, [], ◌∷◌, arith,
}
use opsy_ami_operator.Api.Conditions.{
  Time, OpsyConditionType, OpsyConditionType-discrete, ConditionStatus, OpsyCondition,
}
use opsy_ami_operator.Cond.{status_beq, refresh, upsert}

-- The first condition of a type.
abbrev pub find_condition : OpsyConditionType → List OpsyCondition → Option OpsyCondition
find_condition t [] = none
find_condition t (c ∷ cs) = ite (OpsyConditionType-discrete c.type t) (some c) (find_condition t cs)

-- No type has two conditions.
abbrev pub IsUnique : List OpsyCondition → Type 0
IsUnique [] = Unit
IsUnique (c ∷ cs) = (find_condition c.type cs ≡ none) × IsUnique cs

module _ (now : Time) (type : OpsyConditionType) (status : ConditionStatus)
    (reason message : String) where
  abbrev pub same_status : ConditionStatus → ConditionStatus → Bool
  same_status ConditionStatus.condition_true ConditionStatus.condition_true = true
  same_status ConditionStatus.condition_false ConditionStatus.condition_false = true
  same_status ConditionStatus.condition_unknown ConditionStatus.condition_unknown = true
  same_status _ _ = false

  -- The time of a condition that says the same already is kept.
  abbrev pub time_after : OpsyCondition → Time
  time_after c =
      if same_status c.status status && (c.reason == reason) && (c.message == message)
      then c.last_transition_time
      else now

  -- What the call says, as the condition of its type.
  abbrev pub saying : Time → OpsyCondition
  saying t = record {
    type = type;
    status = status;
    last_transition_time = t;
    reason = reason;
    message = message;
  }

  -- The condition of the type that the conditions have after the call.
  abbrev pub updated : Option OpsyCondition → OpsyCondition
  updated none = saying now
  updated (some c) = saying (time_after c)

  same_status_lem : (a b : ConditionStatus) → same_status a b ≡ true → a ≡ b
  same_status_lem a b h = ground arith

  status_beq-same_status : (a b : ConditionStatus) → status_beq a b ≡ same_status a b
  status_beq-same_status a b = ground arith

  refresh_lem :
      (c : OpsyCondition)
      → c.type ≡ type
      → refresh now status reason message c ≡ saying (time_after c)
  unfolding refresh
  refresh_lem c e = rw status_beq-same_status (
      ground (
        arith,
        e,
        same_status_lem c.status status,
        eq_iff c.reason reason,
        eq_iff c.message message,
      ))

  refresh-type : (c : OpsyCondition) → (refresh now status reason message c).type ≡ c.type
  unfolding refresh
  refresh-type c = ground arith

  -- Before the conditions are sorted, a lookup finds at the type of the call a condition with the
  -- status, the reason and the message of the call, and the time of the old condition if that said the
  -- same and the time of the call otherwise, and at every other type what it found before.
  pub find_condition-upsert :
      (t : OpsyConditionType) (cs : List OpsyCondition)
      → find_condition t (upsert now type status reason message cs)
        ≡ ite
            (OpsyConditionType-discrete type t)
            (some (updated (find_condition type cs)))
            (find_condition t cs)
  unfolding upsert
  find_condition-upsert t [] = ground arith
  find_condition-upsert t (c ∷ cs) =
      ground (arith, find_condition-upsert t cs, refresh_lem c, refresh-type c)

  -- The call keeps at most one condition of each type.
  pub upsert-IsUnique :
      (cs : List OpsyCondition) → IsUnique cs → IsUnique (upsert now type status reason message cs)
  unfolding upsert
  upsert-IsUnique [] u = (refl, tt)
  upsert-IsUnique (c ∷ cs) u = elim (OpsyConditionType-discrete c.type type) [
    | yes p ↦ rw (if_pos _ p) (rw refresh-type u.0, u.1)
    | no n ↦
        rw (if_neg _ n)
          (rw find_condition-upsert (rw (if_neg _ (λ e. n (sym e))) u.0), upsert-IsUnique cs u.1)
  ]
