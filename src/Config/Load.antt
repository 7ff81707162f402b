-- ===== src/Config/Load.antt =====
-- config.go: what a configuration holds after it was loaded.
use opsy_ami_operator.Prelude.{
  String, true, false, List, [], ◌==◌, ◌≡◌, refl, sym, ◌∙◌, arith, Bool-cases, inl, inr,
}
use opsy_ami_operator.Prelude.Maps.{lookup}
use opsy_ami_operator.Go.{Error, Result, ok, err, panics, handling, raise, ◌>>=◌, ◌>>◌}
use opsy_ami_operator.Config.{
  Config, ConfigEnv, add_all, in_process, read_error, no_format, load_parsed,
  load_from_env_variables, load_from_dot_env, load_from_yaml, load_from_json, load_data,
  load_config, overridden,
}
use opsy_ami_operator.Config.Values.{
  last_entry, lookup-add_all, with_variable, lookup-overridden, with_variable_twice,
}

-- The entries that a file gives: as YAML, else as JSON. A `.env` file gives none, it only changes
-- the environment; no more does an empty path.
pub data Reads {V W : Type 0} (env : ConfigEnv V W) (path : String) (w : W)
    : List (String × V) → W → Type 0 where
  no_file : (path == "") ≡ true → Reads env path w [] w
  yaml_file :
      {content : String} {entries : List (String × V)} {w' : W}
      → (path == "") ≡ false
      → env.read_file path w ≡ (ok content, w')
      → env.unmarshal_yaml content ≡ ok entries
      → Reads env path w entries w'
  json_file :
      {content : String} {e : Error} {entries : List (String × V)} {w' : W}
      → (path == "") ≡ false
      → env.read_file path w ≡ (ok content, w')
      → env.unmarshal_yaml content ≡ err e
      → env.unmarshal_json content ≡ ok entries
      → Reads env path w entries w'
  dot_env_file :
      {content : String} {e e' : Error} {w₁ w' : W}
      → (path == "") ≡ false
      → env.read_file path w ≡ (ok content, w₁)
      → env.unmarshal_yaml content ≡ err e
      → env.unmarshal_json content ≡ err e'
      → env.load_dotenv path w₁ ≡ (ok tt, w')
      → Reads env path w [] w'

module _ {V W : Type 0} (env : ConfigEnv V W) where
  -- `c'` has the entries on top of `c`, with the variables of the environment.
  abbrev pub HasLoaded : Config V → List (String × V) → Config V → W → Type 0
  HasLoaded c entries c' w =
      (key : String)
      → lookup key c'.values
        ≡ with_variable env w key (last_entry key entries (lookup key c.values))

  variables-HasLoaded :
      (entries : List (String × V)) (c c' : Config V) (w w' : W)
      → load_from_env_variables env (add_all entries c, w) ≡ (ok tt, (c', w'))
      → (w ≡ w') × HasLoaded c entries c' w'
  unfolding load_from_env_variables
  variables-HasLoaded entries c c' w w' h = (
    (λ i. (h i).1.1),
    λ key.
        sym (λ i. lookup key (h i).1.0.values)
        ∙ lookup-overridden env w key (add_all entries c).values
        ∙ (λ i. with_variable env ((h i).1.1) key (lookup-add_all key entries c i)),
  )

  -- The last of the three formats, after the environment is loaded.
  abbrev after_dot_env : Result (Unit {0}) × W → Config V → Result (Unit {0}) × (Config V × W)
  after_dot_env x c =
      handling (in_process (λ _. x) >> load_from_env_variables env) (λ _. raise no_format)
        (λ _. load_from_env_variables env) (c, x.1)

  dot_env-HasLoaded :
      (path : String) (c c' : Config V) (w w' : W)
      → handling
          (load_from_dot_env env path)
          (λ _. raise no_format)
          (λ _. load_from_env_variables env)
          (c, w)
        ≡ (ok tt, (c', w'))
      → (env.load_dotenv path w ≡ (ok tt, w')) × HasLoaded c [] c' w'
  unfolding load_from_dot_env load_from_env_variables handling ◌>>=◌ raise
  dot_env-HasLoaded path c c' w w' = go (env.load_dotenv path w) refl
    where
      go :
          (x : Result (Unit {0}) × W)
          → env.load_dotenv path w ≡ x
          → after_dot_env x c ≡ (ok tt, (c', w'))
          → (env.load_dotenv path w ≡ (ok tt, w')) × HasLoaded c [] c' w'
      go (ok _, w₁) e h =
          let (_, loaded) =
            variables-HasLoaded [] (record { values = overridden env w₁ c.values }) c' w₁ w' h in
          (
            e ∙ (λ i. (ok tt, (h i).1.1)),
            λ key.
                loaded key
                ∙ (λ i. with_variable env w' key (lookup-overridden env ((h i).1.1) key c.values i))
                ∙ with_variable_twice env w' key (lookup key c.values),
          )
      go (err _, w₁) e h = ground arith
      go (panics, w₁) e h = ground arith

  load_data-HasLoaded :
      (path content : String) (c c' : Config V) (w w₁ w' : W)
      → (path == "") ≡ false
      → env.read_file path w ≡ (ok content, w₁)
      → load_data env path content (c, w₁) ≡ (ok tt, (c', w'))
      → (entries : List (String × V)) × Reads env path w entries w' × HasLoaded c entries c' w'
  unfolding load_data load_from_yaml load_from_json handling
  load_data-HasLoaded path content c c' w w₁ w' named found =
      go (env.unmarshal_yaml content) refl (env.unmarshal_json content) refl
    where
      go :
          (y : Result (List (String × V)))
          → env.unmarshal_yaml content ≡ y
          → (j : Result (List (String × V))) → env.unmarshal_json content ≡ j
          → handling
              (load_parsed y)
              (λ _.
                handling
                  (load_parsed j)
                  (λ _.
                    handling
                      (load_from_dot_env env path)
                      (λ _. raise no_format)
                      (λ _. load_from_env_variables env))
                  (λ _. load_from_env_variables env))
              (λ _. load_from_env_variables env)
              (c, w₁)
            ≡ (ok tt, (c', w'))
          → (entries : List (String × V)) × Reads env path w entries w' × HasLoaded c entries c' w'
      go (ok entries) y j k h =
          let (same, loaded) = variables-HasLoaded entries c c' w₁ w' h in
          (entries, yaml_file named (found ∙ (λ i. (ok content, same i))) y, loaded)
      go panics y j k h = ground arith
      go (err e) y (ok entries) k h =
          let (same, loaded) = variables-HasLoaded entries c c' w₁ w' h in
          (entries, json_file named (found ∙ (λ i. (ok content, same i))) y k, loaded)
      go (err e) y panics k h = ground arith
      go (err e) y (err e') k h =
          let (environment, loaded) = dot_env-HasLoaded path c c' w₁ w' h in
          ([], dot_env_file named found y k environment, loaded)

  -- When `LoadConfig` succeeds, every key has the value of its last entry in the file, or the one it
  -- had before, and the variable of its name instead of either if that is not empty; a key without an
  -- entry and without a value before has none, whatever the environment or a `.env` file says.
  pub load_config-HasLoaded :
      (path : String) (c c' : Config V) (w w' : W)
      → load_config env path (c, w) ≡ (ok tt, (c', w'))
      → (entries : List (String × V)) × Reads env path w entries w' × HasLoaded c entries c' w'
  unfolding load_config handling raise
  load_config-HasLoaded path c c' w w' h = elim (Bool-cases (path == "")) [
    | inl empty ↦
        let (same, loaded) = variables-HasLoaded [] c c' w w' (rw empty at h) in
        ([], coe 0 1 (i. Reads env path w [] (same i)) (no_file empty), loaded)
    | inr named ↦ go named (env.read_file path w) refl (rw named at h)
  ]
    where
      go :
          (path == "") ≡ false
          → (x : Result String × W) → env.read_file path w ≡ x
          → handling (in_process (λ _. x)) (λ e. raise (read_error e)) (load_data env path) (c, w)
            ≡ (ok tt, (c', w'))
          → (entries : List (String × V)) × Reads env path w entries w' × HasLoaded c entries c' w'
      go named (ok content, w₁) e h = load_data-HasLoaded path content c c' w w₁ w' named e h
      go named (err _, w₁) e h = ground arith
      go named (panics, w₁) e h = ground arith
