-- ===== src/Main/Libraries.antt =====
-- What cmd/main.go calls and this repository does not implement.
use opsy_ami_operator.Prelude.{String, Bool, List, [], ◌∷◌}
use opsy_ami_operator.Go.{Exec, Error, Result}
use opsy_ami_operator.Events.{EventRecorder}
use opsy_ami_operator.Main.Process.{Process}
use opsy_ami_operator.Main.Logging.{Level, LogConfig}
use opsy_ami_operator.Main.Controllers.{Kubernetes, ControllerSetup}

-- The types of the libraries that `main` holds values of: manager.Manager, webhook.Server,
-- rest.Config, zap.Logger, and the fields of tls.Config other than `NextProtos`.
pub record Runtime : Type 1 where
  pub kube : Kubernetes
  pub Manager : Type 0
  pub Server : Type 0
  pub KubeConfig : Type 0
  pub Logger : Type 0
  pub TlsFields : Type 0

pub record TlsConfig (F : Type 0) : Type 0 where
  pub next_protos : List String
  pub fields : F

-- func(*tls.Config)
abbrev pub TlsOption : Type 0 → Type 0 → Type 0
TlsOption F W = TlsConfig F → W → TlsConfig F × W

-- What a server does with its options: each changes the configuration, in their order.
abbrev pub configured : {F W : Type 0} → List (TlsOption F W) → TlsConfig F → W → TlsConfig F × W
configured [] c w = (c, w)
configured (option ∷ rest) c w = let (c', w') = option c w in configured rest c' w'

pub record WebhookOptions (F W : Type 0) : Type 0 where
  pub tls_opts : List (TlsOption F W)

pub record MetricsOptions (F W : Type 0) : Type 0 where
  pub bind_address : String
  pub secure_serving : Bool
  pub tls_opts : List (TlsOption F W)

pub record ManagerOptions (r : Runtime) (W : Type 0) : Type 0 where
  pub scheme : r.kube.Scheme
  pub metrics : MetricsOptions r.TlsFields W
  pub webhook_server : r.Server
  pub health_probe_bind_address : String
  pub leader_election : Bool
  pub leader_election_id : String

-- The variables that the flags are stored in.
pub record Flags : Type 0 where
  pub metrics_addr : String
  pub probe_addr : String
  pub enable_leader_election : Bool
  pub secure_metrics : Bool
  pub enable_http2 : Bool

pub record Libraries (r : Runtime) (W : Type 0) : Type 0 where
  pub new_scheme : r.kube.Scheme
  pub add_client_go_types : r.kube.Scheme → Result r.kube.Scheme
  -- `AddToScheme` of a scheme.Builder with its group, version and types
  pub add_types : String → String → List String → r.kube.Scheme → Result r.kube.Scheme
  pub print : String → W → W
  -- flag.Parse, by the defaults
  pub parse_flags : Flags → Process W Flags
  pub production_config : LogConfig
  pub capital_string : Level → String
  pub build_logger : LogConfig → Exec W r.Logger
  pub set_logger : r.Logger → W → W
  pub sync_logger : r.Logger → W → W
  pub log_info : String → W → W
  -- the error, the message, and keys with values
  pub log_error : Error → String → List String → W → W
  pub new_server : WebhookOptions r.TlsFields W → r.Server
  pub get_config_or_die : Process W r.KubeConfig
  pub new_manager : r.KubeConfig → ManagerOptions r W → Exec W r.Manager
  pub new_clientset : r.KubeConfig → Exec W r.kube.Clientset
  pub get_client : r.Manager → r.kube.Client
  pub get_scheme : r.Manager → r.kube.Scheme
  pub get_event_recorder_for : r.Manager → String → EventRecorder r.kube.Object W
  pub complete : r.Manager → ControllerSetup r.kube W → Exec W (Unit {0})
  -- with healthz.Ping
  pub add_healthz_check : r.Manager → String → Exec W (Unit {0})
  pub add_readyz_check : r.Manager → String → Exec W (Unit {0})
  -- with the context of SetupSignalHandler
  pub start : r.Manager → Exec W (Unit {0})
