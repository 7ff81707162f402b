-- ===== src/Eks/Trim.antt =====
-- eks.go: what `TrimNodeGroups` leaves.
use opsy_ami_operator.Prelude.{
  String, ◌≡◌, ◌↔◌, ◌⊎◌, inl, inr, true, false, List, [], ◌∷◌, arith, eq_iff, Bool-cases,
}
use opsy_ami_operator.Go.{ok}
use opsy_ami_operator.Eks.{is_excluded, trimmed, trim_node_groups}

-- The name is one of the names.
abbrev pub IsOneOf : String → List String → Type 0
IsOneOf group [] = ⊥
IsOneOf group (name ∷ names) = (name ≡ group) ⊎ IsOneOf group names

excluded :
    (names : List String) (group : String) → is_excluded names group ≡ true → IsOneOf group names
excluded [] group h = ground arith
excluded (name ∷ names) group h = ground (arith, excluded names group, eq_iff name group)

not_excluded :
    (names : List String) (group : String) → is_excluded names group ≡ false → ¬ IsOneOf group names
not_excluded [] group h o = o
not_excluded (name ∷ names) group h (inl e) = ground (arith, eq_iff name group)
not_excluded (name ∷ names) group h (inr o) = not_excluded names group (ground arith) o

-- A name in the list that is left, and one that is to be.
pub left_in :
    (names groups : List String) (group : String)
    → IsOneOf group (trimmed names groups)
    → IsOneOf group groups × ¬ IsOneOf group names
left_in names [] group o = absurd o
left_in names (g ∷ groups) group o = elim (Bool-cases (is_excluded names g)) [
  | inl x ↦ let (a, b) = left_in names groups group (rw x at o) in (inr a, b)
  | inr x ↦ elim (rw x at o) [
    | inl e ↦ (inl e, not_excluded names group (coe 0 1 (i. is_excluded names (e i) ≡ false) x))
    | inr later ↦ let (a, b) = left_in names groups group later in (inr a, b)
  ]
]

kept_in :
    (names groups : List String) (group : String)
    → IsOneOf group groups
    → ¬ IsOneOf group names
    → IsOneOf group (trimmed names groups)
kept_in names [] group o n = o
kept_in names (g ∷ groups) group (inl e) n = elim (Bool-cases (is_excluded names g)) [
  | inl x ↦ absurd (n (excluded names group (coe 0 1 (i. is_excluded names (e i) ≡ true) x)))
  | inr x ↦ rw x (inl e)
]
kept_in names (g ∷ groups) group (inr o) n = elim (Bool-cases (is_excluded names g)) [
  | inl x ↦ rw x (kept_in names groups group o n)
  | inr x ↦ rw x (inr (kept_in names groups group o n))
]

-- When `TrimNodeGroups` returns, a name is left exactly if it is one of the node groups and none
-- of those to exclude.
pub trim_node_groups_lem :
    (groups names left : List String) (group : String)
    → trim_node_groups groups names ≡ ok left
    → IsOneOf group left ↔ (IsOneOf group groups × ¬ IsOneOf group names)
unfolding trim_node_groups
trim_node_groups_lem groups names left group h =
    let same : left ≡ trimmed names groups = ground arith in
    rw same (left_in names groups group, λ (o, n). kept_in names groups group o n)
