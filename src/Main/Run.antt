-- ===== src/Main/Run.antt =====
-- cmd/main.go: `init` and `main`.
use opsy_ami_operator.Prelude.{
  String, Bool, false, not, some, none, List, [], ◌∷◌, ◌++◌, if◌then◌else◌,
}
use opsy_ami_operator.Go.{Exec, lift}
use opsy_ami_operator.Api
use opsy_ami_operator.Opsy
use opsy_ami_operator.Status
use opsy_ami_operator.Cond
use opsy_ami_operator.Events
use opsy_ami_operator.Main.Process.{Process, go_on, or_exit, or_panic, ◌>>=◌, ◌>>◌}
use opsy_ami_operator.Main.Logging.{print_logo, log_config}
use opsy_ami_operator.Main.Controllers.{
  PackerBuilderReconciler, AmiRefresherReconciler, setup_packer_builders, setup_ami_refreshers,
}
use opsy_ami_operator.Main.Libraries.{
  Runtime, Libraries, Flags, TlsOption, WebhookOptions, ManagerOptions,
}

-- The defaults of the flags.
abbrev pub default_flags : Flags
default_flags = record {
  metrics_addr = ":8080";
  probe_addr = ":8081";
  enable_leader_election = false;
  secure_metrics = false;
  enable_http2 = false;
}

-- A call that returns nothing.
unfoldable pub effect : {W : Type 0} → (W → W) → Process W (Unit {0})
effect f w = go_on tt (f w)

module _ {r : Runtime} {W : Type 0} (lib : Libraries r W) where
  -- `init`, with the scheme that it fills; `utilruntime.Must` panics on an error.
  unfoldable pub init : Process W r.kube.Scheme
  init = do
    scheme ← or_panic (lift (lib.add_client_go_types lib.new_scheme))
    or_panic (lift (lib.add_types Api.group Api.version Api.registered_types scheme))

  unfoldable pub disable_http2 : TlsOption r.TlsFields W
  disable_http2 c w =
      (record c { next_protos = "http/1.1" ∷ [] }, lib.log_info "disabling http/2" w)

  unfoldable pub tls_opts : Bool → List (TlsOption r.TlsFields W)
  tls_opts enable_http2 = if not enable_http2 then [] ++ (disable_http2 ∷ []) else []

  unfoldable pub webhook_options : Flags → WebhookOptions r.TlsFields W
  webhook_options flags = record { tls_opts = tls_opts flags.enable_http2 }

  unfoldable pub manager_options : r.kube.Scheme → Flags → ManagerOptions r W
  manager_options scheme flags = record {
    scheme = scheme;
    metrics = record {
      bind_address = flags.metrics_addr;
      secure_serving = flags.secure_metrics;
      tls_opts = tls_opts flags.enable_http2;
    };
    webhook_server = lib.new_server (webhook_options flags);
    health_probe_bind_address = flags.probe_addr;
    leader_election = flags.enable_leader_election;
    leader_election_id = "40b3c27f.opsy.dev";
  }

  unfoldable pub packer_builder_reconciler :
      r.Manager → r.kube.Clientset → PackerBuilderReconciler r.kube W
  packer_builder_reconciler mgr clientset = record {
    client = lib.get_client mgr;
    scheme = lib.get_scheme mgr;
    clientset = some clientset;
    event_manager = Events.new (lib.get_event_recorder_for mgr "packerbuilder-controller");
    status = Status.new (lib.get_client mgr);
    cond = Cond.new (lib.get_client mgr);
    opsy_runner = Opsy.new;
  }

  unfoldable pub ami_refresher_reconciler : r.Manager → AmiRefresherReconciler r.kube W
  ami_refresher_reconciler mgr = record {
    client = lib.get_client mgr;
    scheme = lib.get_scheme mgr;
    clientset = none;
    event_manager = Events.new (lib.get_event_recorder_for mgr "ami-refresh-controller");
    status = Status.new (lib.get_client mgr);
    cond = Cond.new (lib.get_client mgr);
  }

  -- `if err != nil { setupLog.Error(err, …); os.Exit(1) }`
  unfoldable pub or_fail : {A : Type 0} → String → List String → Exec W A → Process W A
  or_fail message values m = or_exit 1 (λ e. lib.log_error e message values) m

  unfoldable pub new_logger : Process W r.Logger
  new_logger = do
    logger ← or_panic (lib.build_logger (log_config lib.capital_string lib.production_config))
    effect (lib.set_logger logger)
    go_on logger

  unfoldable pub new_manager : r.kube.Scheme → Flags → Process W r.Manager
  new_manager scheme flags = do
    config ← lib.get_config_or_die
    or_fail "unable to start manager" [] (lib.new_manager config (manager_options scheme flags))

  unfoldable pub new_clientset : Process W r.kube.Clientset
  new_clientset = do
    config ← lib.get_config_or_die
    or_fail "unable to create kubernetes client" [] (lib.new_clientset config)

  -- From the set-up of the controllers to the start of the manager.
  unfoldable pub serve : r.Manager → r.kube.Clientset → Process W (Unit {0})
  serve mgr clientset = do
    or_fail "unable to create controller" ("controller" ∷ "PackerBuilder" ∷ [])
        (setup_packer_builders lib.complete (packer_builder_reconciler mgr clientset) mgr)
    or_fail "unable to create controller" ("controller" ∷ "AMIRefresher" ∷ [])
        (setup_ami_refreshers lib.complete (ami_refresher_reconciler mgr) mgr)
    or_fail "unable to set up health check" [] (lib.add_healthz_check mgr "healthz")
    or_fail "unable to set up ready check" [] (lib.add_readyz_check mgr "readyz")
    effect (lib.log_info "starting manager")
    or_fail "problem running manager" [] (lib.start mgr)

  -- The deferred Sync is run when `main` returns, and not by os.Exit; the state of a process that
  -- panics is that of the panic.
  unfoldable pub main : Process W (Unit {0})
  main = do
    scheme ← init
    effect (print_logo lib.print)
    flags ← lib.parse_flags default_flags
    logger ← new_logger
    mgr ← new_manager scheme flags
    clientset ← new_clientset
    serve mgr clientset
    effect (lib.sync_logger logger)
