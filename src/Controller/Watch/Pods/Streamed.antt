-- ===== src/Controller/Watch/Pods/Streamed.antt =====
-- packerbuilder_controller.go: when a poll of `streamPodLogs` ends the polling.
use opsy_ami_operator.Prelude.{false, Option, none, some, List, ◌∷◌, ◌≡◌}
use opsy_ami_operator.Go.{ok}
use opsy_ami_operator.Env.{Env}
use opsy_ami_operator.Packer.Manager.{ManagerPacker, Held}
use opsy_ami_operator.Packer.Logs.Stream.{stream_logs}
use opsy_ami_operator.Controller.Watch.Pods.{Pod, PodApi, is_initializing}

module _ {W : Type 0} (env : Env W) (api : PodApi W) where
  -- The first pod of the job was listed and its log streamed to the end, by calls that succeeded.
  pub record IsStreamed (pm : Option ManagerPacker) (s u : Held W) : Type 0 where
    pub pod : Pod
    pub others : List Pod
    pub m : ManagerPacker
    pub w₁ : W
    pub t : Held W
    pub listed : api.list_pods s.0.meta.namespace s.0.status.job_name s.1 ≡ (ok (pod ∷ others), w₁)
    pub started : is_initializing pod ≡ false
    pub managed : pm ≡ some m
    pub log_read : stream_logs env api.open_log m pod.name pod.namespace (s.0, w₁) ≡ (ok tt, t)
    pub live : (env.context_error t.1).0 ≡ none
