-- ===== src/Prelude/Texts.antt =====
-- Texts built from pieces: `fmt.Sprintf` with `%s` and `%v` of texts, and package strings.
use Prim.Native.String.{◌++◌, slice, len}
use opsy_ami_operator.Prelude.Tests.{if◌then◌else◌}
use mathlib.Core.Bool.{Bool, true, false}
use mathlib.Core.Option.{Option, none, some}
use mathlib.Core.List.{List, [], ◌∷◌}
use Prim.Native.String.{String}
use text.Mathlib.Text.{find?, ◌==◌}

-- The pieces one after the other.
abbrev pub concat : List String → String
concat [] = ""
concat (s ∷ rest) = s ++ concat rest

abbrev join_rest : String → List String → String
join_rest sep [] = ""
join_rest sep (s ∷ rest) = sep ++ (s ++ join_rest sep rest)

-- strings.Join
abbrev pub join : List String → String → String
join [] sep = ""
join (s ∷ rest) sep = s ++ join_rest sep rest

abbrev found_at {ℓ} : {A : Type ℓ} → Option A → Bool
found_at none = false
found_at (some _) = true

-- strings.Contains
abbrev pub contains : String → String → Bool
contains s piece = found_at (find? s piece)

-- strings.TrimPrefix
abbrev pub trim_prefix : String → String → String
trim_prefix s prefix = if slice s 0 (len prefix) == prefix then slice s (len prefix) (len s) else s
