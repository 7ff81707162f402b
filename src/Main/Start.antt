-- ===== src/Main/Start.antt =====
-- cmd/main.go: what a start of the operator has done.
use opsy_ami_operator.Prelude.{
  String, true, false, some, none, List, [], ◌∷◌, ◌≡◌, refl, arith, if◌then◌else◌,
}
use opsy_ami_operator.Go.{Exec, ok}
use opsy_ami_operator.Opsy
use opsy_ami_operator.Status
use opsy_ami_operator.Cond
use opsy_ami_operator.Events
use opsy_ami_operator.Main.Process.{Process, goes, go_on, ◌>>=◌, bind-eq-goes, or_exit-eq-goes}
use opsy_ami_operator.Main.Controllers.{
  packer_builders, ami_refreshers, setup_packer_builders, setup_ami_refreshers,
}
use opsy_ami_operator.Main.Libraries.{Runtime, Libraries, Flags, TlsConfig, configured}
use opsy_ami_operator.Main.Run.{
  effect, or_fail, tls_opts, webhook_options, manager_options, packer_builder_reconciler,
  ami_refresher_reconciler, new_manager, new_clientset, serve, main, disable_http2, default_flags,
}

-- The calls succeed one after the other.
pub data Succeed {W : Type 0} : List (Exec W (Unit {0})) → W → W → Type 0 where
  done : {w : W} → Succeed [] w w
  next :
      {m : Exec W (Unit {0})} {rest : List (Exec W (Unit {0}))} {w t u : W}
      → m w ≡ (ok tt, t)
      → Succeed rest t u
      → Succeed (m ∷ rest) w u

module _ {r : Runtime} {W : Type 0} (lib : Libraries r W) where
  -- What is registered with the manager before it starts: a builder's controller with a new runner of
  -- at most ten reconciliations at once that is told of changed specs and of the jobs it owns, a
  -- refresher's controller, and the two checks.
  abbrev pub registrations : r.Manager → r.kube.Clientset → List (Exec W (Unit {0}))
  registrations mgr clientset =
      lib.complete mgr record {
        for_kind = "PackerBuilder";
        owns = "Job" ∷ [];
        generation_changed = true;
        max_concurrent_reconciles = some 10;
        reconciler = packer_builders record {
          client = lib.get_client mgr;
          clientset = some clientset;
          cond = record { client = lib.get_client mgr };
          event_manager = record {
            recorder = lib.get_event_recorder_for mgr "packerbuilder-controller";
          };
          scheme = lib.get_scheme mgr;
          opsy_runner = record { states = [] };
          status = record { client = lib.get_client mgr };
        };
      }
      ∷ lib.complete mgr record {
        for_kind = "AMIRefresher";
        owns = [];
        generation_changed = false;
        max_concurrent_reconciles = none;
        reconciler = ami_refreshers record {
          client = lib.get_client mgr;
          scheme = lib.get_scheme mgr;
          clientset = none;
          status = record { client = lib.get_client mgr };
          event_manager = record {
            recorder = lib.get_event_recorder_for mgr "ami-refresh-controller";
          };
          cond = record { client = lib.get_client mgr };
        };
      }
      ∷ lib.add_healthz_check mgr "healthz"
      ∷ lib.add_readyz_check mgr "readyz"
      ∷ []

  -- The TLS configuration of a server after its options.
  abbrev pub offered : Flags → TlsConfig r.TlsFields → TlsConfig r.TlsFields
  offered flags c = if flags.enable_http2 then c else record c { next_protos = "http/1.1" ∷ [] }

  opts_offered :
      (flags : Flags) (c : TlsConfig r.TlsFields) (w : W)
      → (configured (tls_opts lib flags.enable_http2) c w).0 ≡ offered flags c
  unfolding tls_opts disable_http2
  opts_offered flags c w =
      elim flags.enable_http2
        as (λ b.
          (configured (tls_opts lib b) c w).0
          ≡ (if b then c else record c { next_protos = "http/1.1" ∷ [] })) [
            | true ↦ refl
            | false ↦ refl
          ]

  failed_not :
      {A : Type 0} (message : String) (values : List String) (m : Exec W A) (w t : W) (a : A)
      → or_fail lib message values m w ≡ (goes a, t)
      → m w ≡ (ok a, t)
  unfolding or_fail
  failed_not message values m w t a h = or_exit-eq-goes 1 _ m w t a h

  -- A step that may fail, and what comes after it.
  step :
      {A B : Type 0} (message : String) (values : List String) (m : Exec W A) (f : A → Process W B)
      (w u : W) (b : B)
      → (or_fail lib message values m >>= f) w ≡ (goes b, u)
      → (a : A) × (t : W) × (m w ≡ (ok a, t)) × (f a t ≡ (goes b, u))
  step message values m f w u b h =
      let (a, t, first, rest) = bind-eq-goes (or_fail lib message values m) f w u b h in
      (a, t, failed_not message values m w t a first, rest)

  effected :
      {B : Type 0} (f : W → W) (g : Unit {0} → Process W B) (w u : W) (b : B)
      → (effect f >>= g) w ≡ (goes b, u)
      → g tt (f w) ≡ (goes b, u)
  unfolding effect go_on ◌>>=◌
  effected f g w u b h = h

  served :
      (mgr : r.Manager) (clientset : r.kube.Clientset) (w u : W)
      → serve lib mgr clientset w ≡ (goes tt, u)
      → (t : W) × Succeed (registrations mgr clientset) w t
        × (lib.start mgr (lib.log_info "starting manager" t) ≡ (ok tt, u))
  unfolding serve setup_packer_builders setup_ami_refreshers packer_builder_reconciler
      ami_refresher_reconciler Opsy.new Status.new Cond.new Events.new
  served mgr clientset w u h =
      let (_, w₁, builders, h₁) = step _ _ _ _ w u tt h in
      let (_, w₂, refreshers, h₂) = step _ _ _ _ w₁ u tt h₁ in
      let (_, w₃, healthz, h₃) = step _ _ _ _ w₂ u tt h₂ in
      let (_, w₄, readyz, h₄) = step _ _ _ _ w₃ u tt h₃ in
      (
        w₄,
        next builders (next refreshers (next healthz (next readyz done))),
        failed_not _ _ _ _ u tt (effected _ _ w₄ u tt h₄),
      )

  -- The main function returns only where the flags were parsed by their defaults; where the manager
  -- was made by the options of these flags, and a clientset after it; where a controller of each kind,
  -- the one of builders with a new runner and this clientset, and both checks were registered with the
  -- manager, in this order and before it was started; and where it was started and stopped with no
  -- error. What comes after is the flush of the log.
  pub main_lem :
      (w u : W)
      → main lib w ≡ (goes tt, u)
      → (scheme : r.kube.Scheme) × (flags : Flags) × (config config' : r.KubeConfig)
        × (mgr : r.Manager) × (clientset : r.kube.Clientset) × (logger : r.Logger) × (w₁ w₂ w₃ w₄ w₅
            w₆ w₇ w₈ : W)
        × (lib.parse_flags default_flags w₁ ≡ (goes flags, w₂))
        × (lib.new_manager config (manager_options lib scheme flags) w₃ ≡ (ok mgr, w₄))
        × (lib.new_clientset config' w₅ ≡ (ok clientset, w₆))
        × Succeed (registrations mgr clientset) w₆ w₇
        × (lib.start mgr (lib.log_info "starting manager" w₇) ≡ (ok tt, w₈))
        × (u ≡ lib.sync_logger logger w₈)
  unfolding main new_manager new_clientset effect go_on
  main_lem w u h =
      let (scheme, w₁, _, h₁) = bind-eq-goes _ _ w u tt h in
      let (flags, w₂, parsed, h₂) = bind-eq-goes _ _ _ u tt (effected _ _ w₁ u tt h₁) in
      let (logger, w₃, _, h₃) = bind-eq-goes _ _ w₂ u tt h₂ in
      let (mgr, w₄, made, h₄) = bind-eq-goes _ _ w₃ u tt h₃ in
      let (config, w₅, _, managed) = bind-eq-goes _ _ w₃ w₄ mgr made in
      let (clientset, w₆, connected, h₅) = bind-eq-goes _ _ w₄ u tt h₄ in
      let (config', w₇, _, client_made) = bind-eq-goes _ _ w₄ w₆ clientset connected in
      let (_, w₈, ran, h₆) = bind-eq-goes _ _ w₆ u tt h₅ in
      let (w₉, registered, started) = served mgr clientset w₆ w₈ ran in
      (
        scheme,
        flags,
        config,
        config',
        mgr,
        clientset,
        logger,
        _,
        w₂,
        w₅,
        w₄,
        w₇,
        w₆,
        w₉,
        w₈,
        parsed,
        failed_not _ _ _ w₅ w₄ mgr managed,
        failed_not _ _ _ w₇ w₆ clientset client_made,
        registered,
        started,
        ground arith,
      )

  -- Where the flag enables HTTP/2, the options that the webhook server and the metrics server of the
  -- manager are given leave each TLS configuration as it is; where it does not, they make both offer
  -- HTTP/1.1 and nothing else and change no other field. The default of the flag does not enable it.
  pub servers_offered :
      (scheme : r.kube.Scheme) (flags : Flags) (c : TlsConfig r.TlsFields) (w : W)
      → ((configured (webhook_options lib flags).tls_opts c w).0 ≡ offered flags c)
        × ((configured (manager_options lib scheme flags).metrics.tls_opts c w).0 ≡ offered flags c)
        × ((manager_options lib scheme flags).webhook_server
            ≡ lib.new_server (webhook_options lib flags))
        × (default_flags.enable_http2 ≡ false)
  unfolding webhook_options manager_options
  servers_offered scheme flags c w = (opts_offered flags c w, opts_offered flags c w, refl, refl)
