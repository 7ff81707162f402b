-- ===== src/Client.antt =====
-- pkg/client/client.go: the configuration of the AWS clients of a region.
use opsy_ami_operator.Prelude.{String, [], ◌∷◌}
use opsy_ami_operator.Go.{Exec, errorf, map_error}
use opsy_ami_operator.Env.{Env}

-- `ClientAWS`; the error keeps the text of its cause only.
unfoldable pub client_aws : {W : Type 0} → Env W → String → Exec W (Unit {0})
client_aws env region =
    map_error (λ e. errorf ("unable to load SDK config, " ∷ e.message ∷ []))
      (env.load_default_config region)
