-- ===== src/Prelude/Maps.antt =====
-- A map whose keys are texts, as an association list: Go's `m[key]` and `m[key] = value`.
use Prim.Native.String.{String}
use mathlib.Core.Path.{◌≡◌, refl}
use mathlib.Core.Option.{Option, none, some}
use mathlib.Core.List.{List, [], ◌∷◌}
use native.Mathlib.Omega.{arith}
use text.Mathlib.Text.{◌==◌}
use text.Mathlib.TextEquality.{eq_iff}
use opsy_ami_operator.Prelude.Tests.{if◌then◌else◌}

module _ {V : Type 0} where
  abbrev pub lookup : String → List (String × V) → Option V
  lookup key [] = none
  lookup key ((k, v) ∷ rest) = if k == key then some v else lookup key rest

  -- The value under the key is replaced, or the key is added.
  abbrev pub put : String → V → List (String × V) → List (String × V)
  put key v [] = (key, v) ∷ []
  put key v ((k, u) ∷ rest) = if k == key then (key, v) ∷ rest else (k, u) ∷ put key v rest

  pub lookup-put :
      (key j : String) (v : V) (m : List (String × V))
      → lookup j (put key v m) ≡ (if key == j then some v else lookup j m)
  lookup-put key j v [] = refl
  lookup-put key j v ((i, t) ∷ m) =
      ground (arith, eq_iff key j, eq_iff i key, eq_iff i j, lookup-put key j v m)
