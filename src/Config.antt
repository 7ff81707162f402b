-- ===== src/Config.antt =====
-- pkg/config/config.go: the configuration in memory and where it is loaded from.
pub mod Values
pub mod Load
use opsy_ami_operator.Prelude.{
  String, Bool, true, false, Option, none, some, List, [], ◌∷◌, ◌==◌, if◌then◌else◌,
}
use opsy_ami_operator.Prelude.Maps.{lookup, put}
use opsy_ami_operator.Go.{
  Exec, Error, Result, ok, err, panics, errorf, handling, raise, pure, modify, ◌>>=◌, ◌>>◌,
}

-- `V` is `interface{}`.
pub record Config (V : Type 0) : Type 0 where
  pub values : List (String × V)

-- The file system, the environment of the process, and the parsers of package yaml, encoding/json
-- and godotenv, which writes what it reads to that environment.
pub record ConfigEnv (V W : Type 0) : Type 0 where
  pub read_file : String → Exec W String
  pub unmarshal_yaml : String → Result (List (String × V))
  pub unmarshal_json : String → Result (List (String × V))
  pub load_dotenv : String → Exec W (Unit {0})
  pub getenv : String → W → String
  -- a text as an `interface{}`
  pub text_value : String → V

-- `NewConfig`
unfoldable pub new_config : {V : Type 0} → Config V
new_config = record { values = [] }

module _ {V : Type 0} where
  abbrev found : String → Option V → Result V
  found key none = err (errorf ("key not found: " ∷ key ∷ []))
  found key (some v) = ok v

  -- `Get`
  unfoldable pub get : String → Config V → Result V
  get key c = found key (lookup key c.values)

  -- `Set`
  unfoldable pub set : String → V → Config V → Config V
  set key v c = record { values = put key v c.values }

  -- The loop over the map that a parser made.
  abbrev pub add_all : List (String × V) → Config V → Config V
  add_all [] c = c
  add_all ((key, v) ∷ rest) c = add_all rest (record { values = put key v c.values })

module _ {V W : Type 0} where
  abbrev pub load_parsed : Result (List (String × V)) → Exec (Config V × W) (Unit {0})
  load_parsed (ok entries) (c, w) = (ok tt, (add_all entries c, w))
  load_parsed (err e) s = (err e, s)
  load_parsed panics s = (panics, s)

  abbrev pub in_process : {A : Type 0} → Exec W A → Exec (Config V × W) A
  in_process m (c, w) = let (r, w') = m w in (r, (c, w'))

abbrev pub read_error : Error → Error
read_error e = errorf ("failed to read the config file: " ∷ e.message ∷ [])

abbrev pub no_format : Error
no_format = errorf ("failed to determine the file format or load the configuration" ∷ [])

module _ {V W : Type 0} (env : ConfigEnv V W) where
  -- The value under a key, or the variable of that name if it is not empty.
  abbrev pub or_variable : W → String → V → V
  or_variable w key v = let text = env.getenv key w in if text == "" then v else env.text_value text

  -- The loop of `loadFromEnvVariables` over the keys.
  abbrev pub overridden : W → List (String × V) → List (String × V)
  overridden w [] = []
  overridden w ((key, v) ∷ rest) = (key, or_variable w key v) ∷ overridden w rest

  -- `loadFromEnvVariables`
  unfoldable pub load_from_env_variables : Exec (Config V × W) (Unit {0})
  load_from_env_variables (c, w) = (ok tt, (record { values = overridden w c.values }, w))

  -- `loadFromYAML`
  unfoldable pub load_from_yaml : String → Exec (Config V × W) (Unit {0})
  load_from_yaml content = load_parsed (env.unmarshal_yaml content)

  -- `loadFromJSON`
  unfoldable pub load_from_json : String → Exec (Config V × W) (Unit {0})
  load_from_json content = load_parsed (env.unmarshal_json content)

  -- `loadFromDotEnv`
  unfoldable pub load_from_dot_env : String → Exec (Config V × W) (Unit {0})
  load_from_dot_env path = in_process (env.load_dotenv path) >> load_from_env_variables

  -- The three formats, one after the other.
  unfoldable pub load_data : String → String → Exec (Config V × W) (Unit {0})
  load_data path content =
      handling (load_from_yaml content)
        (λ _.
          handling (load_from_json content)
            (λ _.
              handling (load_from_dot_env path) (λ _. raise no_format)
                (λ _. load_from_env_variables))
            (λ _. load_from_env_variables))
        (λ _. load_from_env_variables)

  -- `LoadConfig`
  unfoldable pub load_config : String → Exec (Config V × W) (Unit {0})
  load_config path =
      if path == ""
      then load_from_env_variables
      else handling (in_process (env.read_file path)) (λ e. raise (read_error e)) (load_data path)
