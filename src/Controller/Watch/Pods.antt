-- ===== src/Controller/Watch/Pods.antt =====
-- packerbuilder_controller.go: `streamPodLogs`, which waits for the pod of a job and streams its log.
pub mod Streamed
use opsy_ami_operator.Prelude.{
  String, Bool, true, false, Option, none, some, List, [], ◌∷◌, ◌&&◌, ◌==◌, if◌then◌else◌,
}
use opsy_ami_operator.Prelude.Texts.{contains}
use opsy_ami_operator.Go.{Exec, Error, pure, raise, panic, total, handling, ◌>>=◌}
use opsy_ami_operator.Env.{Env}
use opsy_ami_operator.Packer.Manager
use opsy_ami_operator.Packer.Manager.{ManagerPacker, Held, outside, read_pb}
use opsy_ami_operator.Packer.Logs.Stream.{OpenLog, stream_logs}

-- The reasons of the container statuses, where the container waits.
pub record Pod : Type 0 where
  pub name : String
  pub namespace : String
  pub is_pending : Bool
  pub waiting_reasons : List (Option String)

-- List of the pods, by namespace and job name; and the log of a pod.
pub record PodApi (W : Type 0) : Type 0 where
  pub list_pods : String → String → Exec W (List Pod)
  pub open_log : OpenLog W

abbrev any_initializing : List (Option String) → Bool
any_initializing [] = false
any_initializing (none ∷ reasons) = any_initializing reasons
any_initializing (some reason ∷ reasons) =
    let rest = any_initializing reasons in if reason == "PodInitializing" then true else rest

abbrev pub is_initializing : Pod → Bool
is_initializing pod = pod.is_pending && any_initializing pod.waiting_reasons

module _ {W : Type 0} (env : Env W) (api : PodApi W) where
  -- What the stream sent on `errChan`.
  abbrev pub caught : Exec (Held W) (Unit {0}) → Exec (Held W) (Option Error)
  caught m = handling m (λ e. pure (some e)) (λ _. pure none)

  -- `StreamLogs` of the manager, whose builder is the one in memory; a nil manager is read through.
  abbrev stream_of : Option ManagerPacker → Pod → Exec (Held W) (Unit {0})
  stream_of none pod = panic
  stream_of (some m) pod = stream_logs env api.open_log m pod.name pod.namespace

  -- The `select` on the stream's error and the end of the context: is the polling done?
  abbrev pub streamed : Option Error → Option Error → Exec (Held W) Bool
  streamed error (some e) = raise e
  streamed none none = pure true
  streamed (some e) none = if contains e.message "PodInitializing" then pure false else raise e

  -- From the list of the pods on.
  abbrev pub on_pods : Option ManagerPacker → List Pod → Exec (Held W) Bool
  on_pods pm [] = pure false
  on_pods pm (pod ∷ pods) =
      if is_initializing pod
      then pure false
      else (caught (stream_of pm pod) >>= λ error.
          outside (total env.context_error) >>= streamed error)

  -- One call of the condition that is polled.
  unfoldable pub poll_once : Option ManagerPacker → Exec (Held W) Bool
  poll_once pm = read_pb >>= λ pb.
      handling (outside (api.list_pods pb.meta.namespace pb.status.job_name)) (λ _. pure false)
        (on_pods pm)

  -- `streamPodLogs`, with `wait.PollUntilContextCancel` of a condition.
  unfoldable pub stream_pod_logs :
      (Exec (Held W) Bool → Exec (Held W) (Unit {0})) → Exec (Held W) (Unit {0})
  stream_pod_logs poll_until_context_cancel = read_pb >>= λ pb.
      outside (Manager.new env pb.spec.region) >>= λ pm. poll_until_context_cancel (poll_once pm)
