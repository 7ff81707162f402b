-- ===== src/Tests/Main.antt =====
-- A start of the operator, in a world that counts what is registered and run.
use opsy_ami_operator.Prelude.{false, ℕ, suc, true, [], ◌∷◌, ◌≡◌, refl}
use opsy_ami_operator.Go.{ok, lift}
use opsy_ami_operator.Main.Process.{goes, go_on, or_exit, or_panic, ◌>>=◌}
use opsy_ami_operator.Main.Logging.{Level, LogConfig, print_logo}
use opsy_ami_operator.Main.Controllers.{setup_packer_builders, setup_ami_refreshers}
use opsy_ami_operator.Main.Libraries.{Runtime, Libraries, Flags, TlsConfig, configured}
use opsy_ami_operator.Main.Run.{
  default_flags, effect, init, or_fail, new_logger, new_manager, new_clientset, serve, main,
  webhook_options, manager_options,
}
use opsy_ami_operator.Main.Start.{Succeed, registrations, main_lem, offered, servers_offered}

abbrev test_runtime : Runtime
test_runtime = record {
  kube = record { Client = Unit {0}; Scheme = Unit {0}; Clientset = Unit {0}; Object = Unit {0} };
  Manager = Unit {0};
  Server = Unit {0};
  KubeConfig = Unit {0};
  Logger = Unit {0};
  TlsFields = Unit {0};
}

abbrev test_log_config : LogConfig
test_log_config = record {
  encoding = "json";
  level = Level.info_level;
  encode_time = "EpochTimeEncoder";
  encode_level = λ _. "level";
  encode_caller = "ShortCallerEncoder";
}

abbrev test_libraries : Libraries test_runtime ℕ
test_libraries = record {
  new_scheme = tt;
  add_client_go_types = λ s. ok s;
  add_types = λ _ _ _ s. ok s;
  print = λ _ w. w;
  parse_flags = λ flags w. (goes (record flags { secure_metrics = true }), w);
  production_config = test_log_config;
  capital_string = λ _. "LEVEL";
  build_logger = λ _ w. (ok tt, w);
  set_logger = λ _ w. w;
  sync_logger = λ _ w. suc w;
  log_info = λ _ w. suc w;
  log_error = λ _ _ _ w. w;
  new_server = λ _. tt;
  get_config_or_die = λ w. (goes tt, w);
  new_manager = λ _ _ w. (ok tt, w);
  new_clientset = λ _ w. (ok tt, w);
  get_client = λ _. tt;
  get_scheme = λ _. tt;
  get_event_recorder_for = λ _ _ _ _ _ _ w. w;
  complete = λ _ _ w. (ok tt, suc w);
  add_healthz_check = λ _ _ w. (ok tt, suc w);
  add_readyz_check = λ _ _ w. (ok tt, suc w);
  start = λ _ w. (ok tt, suc w);
}

started : main test_libraries 0 ≡ (goes tt, 7)
unfolding main init effect new_logger new_manager new_clientset serve or_fail or_exit or_panic go_on
    lift ◌>>=◌ print_logo setup_packer_builders setup_ami_refreshers
started = refl

main_lem_example :
    (scheme : Unit {0}) × (flags : Flags) × (config config' mgr clientset logger : Unit {0}) × (w₁
      w₂ w₃ w₄ w₅ w₆ w₇ w₈ : ℕ)
    × (test_libraries.parse_flags default_flags w₁ ≡ (goes flags, w₂))
    × (test_libraries.new_manager config (manager_options test_libraries scheme flags) w₃
        ≡ (ok mgr, w₄))
    × (test_libraries.new_clientset config' w₅ ≡ (ok clientset, w₆))
    × Succeed (registrations test_libraries mgr clientset) w₆ w₇
    × (test_libraries.start mgr (test_libraries.log_info "starting manager" w₇) ≡ (ok tt, w₈))
    × (7 ≡ test_libraries.sync_logger logger w₈)
main_lem_example = main_lem test_libraries 0 7 started

abbrev test_tls : TlsConfig (Unit {0})
test_tls = record { next_protos = "h2" ∷ "http/1.1" ∷ []; fields = tt }

servers_offered_example :
    ((configured (webhook_options test_libraries default_flags).tls_opts test_tls 0).0
      ≡ offered test_libraries default_flags test_tls)
    × ((configured (manager_options test_libraries tt default_flags).metrics.tls_opts test_tls 0).0
        ≡ offered test_libraries default_flags test_tls)
    × ((manager_options test_libraries tt default_flags).webhook_server
        ≡ test_libraries.new_server (webhook_options test_libraries default_flags))
    × (default_flags.enable_http2 ≡ false)
servers_offered_example = servers_offered test_libraries tt default_flags test_tls 0
