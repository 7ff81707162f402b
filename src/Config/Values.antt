-- ===== src/Config/Values.antt =====
-- config.go: what is read back, and what the environment changes.
use opsy_ami_operator.Prelude.{
  String, Option, none, some, List, [], ◌∷◌, ◌==◌, ◌≡◌, refl, ap, ◌∙◌, arith, eq_iff, if◌then◌else◌,
}
use opsy_ami_operator.Prelude.Maps.{lookup, put, lookup-put}
use opsy_ami_operator.Go.{ok}
use opsy_ami_operator.Config.{Config, ConfigEnv, get, set, add_all, overridden, or_variable}

module _ {V : Type 0} where
  -- `Get` after `Set` gives the value that was set under its key, and under each other key what it
  -- gave before.
  pub get-set :
      (key j : String) (v : V) (c : Config V)
      → get j (set key v c) ≡ (if key == j then ok v else get j c)
  unfolding get set
  get-set key j v c = ground (arith, lookup-put key j v c.values)

  -- The value of the last entry under a key, if there is one.
  abbrev pub last_entry : String → List (String × V) → Option V → Option V
  last_entry key [] before = before
  last_entry key ((k, v) ∷ rest) before = last_entry key rest (if k == key then some v else before)

  pub lookup-add_all :
      (key : String) (entries : List (String × V)) (c : Config V)
      → lookup key (add_all entries c).values ≡ last_entry key entries (lookup key c.values)
  lookup-add_all key [] c = refl
  lookup-add_all key ((k, v) ∷ rest) c =
      lookup-add_all key rest (record { values = put k v c.values })
      ∙ ap (last_entry key rest) (lookup-put k key v c.values)

module _ {V W : Type 0} (env : ConfigEnv V W) where
  -- The variable of the key's name, where the key has a value.
  abbrev pub with_variable : W → String → Option V → Option V
  with_variable w key none = none
  with_variable w key (some v) = some (or_variable env w key v)

  pub lookup-overridden :
      (w : W) (key : String) (m : List (String × V))
      → lookup key (overridden env w m) ≡ with_variable w key (lookup key m)
  lookup-overridden w key [] = refl
  lookup-overridden w key ((k, v) ∷ rest) =
      ground (arith, eq_iff k key, lookup-overridden w key rest)

  -- Loading the variables twice is loading them once.
  pub with_variable_twice :
      (w : W) (key : String) (o : Option V)
      → with_variable w key (with_variable w key o) ≡ with_variable w key o
  with_variable_twice w key none = refl
  with_variable_twice w key (some v) = ground arith
