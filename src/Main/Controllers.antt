-- ===== src/Main/Controllers.antt =====
-- The reconcilers that cmd/main.go makes, and how each is set up with the manager.
use opsy_ami_operator.Prelude.{ℕ, String, Bool, true, false, Option, none, some, List, [], ◌∷◌}
use opsy_ami_operator.Go.{Exec}
use opsy_ami_operator.Opsy.{OpsyRunner}
use opsy_ami_operator.Status.{Status}
use opsy_ami_operator.Cond.{ConditionManager}
use opsy_ami_operator.Events.{EventManager}

-- The types of the libraries that the reconcilers hold values of: client.Client, runtime.Scheme,
-- kubernetes.Interface and runtime.Object.
pub record Kubernetes : Type 1 where
  pub Client : Type 0
  pub Scheme : Type 0
  pub Clientset : Type 0
  pub Object : Type 0

-- A nil `Clientset` is `none`.
pub record PackerBuilderReconciler (k : Kubernetes) (W : Type 0) : Type 0 where
  pub client : k.Client
  pub clientset : Option k.Clientset
  pub cond : ConditionManager k.Client
  pub event_manager : EventManager k.Object W
  pub scheme : k.Scheme
  pub opsy_runner : OpsyRunner
  pub status : Status k.Client

pub record AmiRefresherReconciler (k : Kubernetes) (W : Type 0) : Type 0 where
  pub client : k.Client
  pub scheme : k.Scheme
  pub clientset : Option k.Clientset
  pub status : Status k.Client
  pub event_manager : EventManager k.Object W
  pub cond : ConditionManager k.Client

pub data Reconciler (k : Kubernetes) (W : Type 0) : Type 0 where
  packer_builders : PackerBuilderReconciler k W → Reconciler k W
  ami_refreshers : AmiRefresherReconciler k W → Reconciler k W

-- What the builder of a controller is told before `Complete`: the kind, the kinds it owns, whether
-- the event filter GenerationChangedPredicate is there, `MaxConcurrentReconciles`, the reconciler.
pub record ControllerSetup (k : Kubernetes) (W : Type 0) : Type 0 where
  pub for_kind : String
  pub owns : List String
  pub generation_changed : Bool
  pub max_concurrent_reconciles : Option ℕ
  pub reconciler : Reconciler k W

module _ {k : Kubernetes} {W M : Type 0}
    (complete : M → ControllerSetup k W → Exec W (Unit {0})) where
  -- `SetupWithManager` of packerbuilder_controller.go
  unfoldable pub setup_packer_builders : PackerBuilderReconciler k W → M → Exec W (Unit {0})
  setup_packer_builders r mgr = complete mgr record {
    for_kind = "PackerBuilder";
    owns = "Job" ∷ [];
    generation_changed = true;
    max_concurrent_reconciles = some 10;
    reconciler = packer_builders r;
  }

  -- `SetupWithManager` of amirefresher_controller.go
  unfoldable pub setup_ami_refreshers : AmiRefresherReconciler k W → M → Exec W (Unit {0})
  setup_ami_refreshers r mgr = complete mgr record {
    for_kind = "AMIRefresher";
    owns = [];
    generation_changed = false;
    max_concurrent_reconciles = none;
    reconciler = ami_refreshers r;
  }
