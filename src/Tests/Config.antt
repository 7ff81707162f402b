-- ===== src/Tests/Config.antt =====
-- Runs of config.go.
use opsy_ami_operator.Prelude.{String, List, [], ◌∷◌, ◌==◌, refl, if◌then◌else◌}
use opsy_ami_operator.Go.{ok, err, errorf, handling}
use opsy_ami_operator.Config.{
  Config, ConfigEnv, load_data, load_from_yaml, load_from_json, load_from_env_variables,
  load_config,
}
use opsy_ami_operator.Config.Load.{Reads, HasLoaded, load_config-HasLoaded}

-- The values are texts, the file is not YAML, and one variable is set.
abbrev json_env : ConfigEnv String (Unit {0})
json_env = record {
  read_file = λ _ w. (ok "{}", w);
  unmarshal_yaml = λ _. err (errorf ("not YAML" ∷ []));
  unmarshal_json = λ _. ok (("region", "eu-west-1") ∷ ("dir", "web") ∷ []);
  load_dotenv = λ _ w. (ok tt, w);
  getenv = λ key _. if key == "region" then "us-east-1" else "";
  text_value = λ text. text;
}

abbrev empty : Config String
empty = record { values = [] }

abbrev loaded : Config String
loaded = record { values = ("region", "us-east-1") ∷ ("dir", "web") ∷ [] }

load_config-HasLoaded_example :
    (entries : List (String × String)) × Reads json_env "config.json" tt entries tt
    × HasLoaded json_env empty entries loaded tt
unfolding load_config load_data load_from_yaml load_from_json load_from_env_variables handling
load_config-HasLoaded_example = load_config-HasLoaded json_env "config.json" empty loaded tt tt refl
