-- ===== src/Eks/Wait.antt =====
-- pkg/manager_eks/eks.go: waiting until a node group is updated.
pub mod Ends
pub mod Polls
use opsy_ami_operator.Prelude.{ℕ, zero, suc, String, Option, none, some, List, [], ◌∷◌, ◌++◌}
use opsy_ami_operator.Go.{
  Exec, Error, Result, ok, err, panics, errorf, pure, raise, panic, total, handling, ◌>>=◌,
}
use opsy_ami_operator.Env.{Env, WaitEvent, ticked, called, received}
use opsy_ami_operator.Env.Aws.{Nodegroup, NodegroupStatus}
use opsy_ami_operator.Eks.{ManagerRefresh}

abbrev status_text : NodegroupStatus → String
status_text NodegroupStatus.active = "ACTIVE"
status_text NodegroupStatus.degraded = "DEGRADED"
status_text NodegroupStatus.creating = "CREATING"
status_text NodegroupStatus.updating = "UPDATING"
status_text NodegroupStatus.deleting = "DELETING"
status_text (NodegroupStatus.other s) = s

-- `*describeOutput.Nodegroup`
abbrev pub read_group : {W : Type 0} → Option Nodegroup → Exec W Nodegroup
read_group none = panic
read_group (some g) = pure g

-- What a goroutine sends: the status or the error of its call.
abbrev pub Answer : Type 0
Answer = Result NodegroupStatus

module _ {W : Type 0} (env : Env W) (m : ManagerRefresh) (group : String) where
  -- `getNodeGroupStatus`
  unfoldable pub get_node_group_status : Exec W NodegroupStatus
  get_node_group_status = do
    described ← env.describe_nodegroup m.cluster_name group
    nodegroup ← read_group described
    pure nodegroup.status

  -- `handleUpdateFailure`; the health issues are only logged.
  unfoldable pub handle_update_failure : Exec W (Unit {0})
  handle_update_failure = do
    described ← env.describe_nodegroup m.cluster_name group
    nodegroup ← read_group described
    raise (
        errorf (
          "node group update failed or degraded with status: " ∷ status_text nodegroup.status ∷ []))

  -- The call of a goroutine, which sends its error too; a panic in it ends the program.
  unfoldable pub answer : Exec W Answer
  answer = handling get_node_group_status (λ e. pure (err e)) (λ s. pure (ok s))

  -- The case of the loop that receives an answer; `rest` is the loop after it.
  unfoldable pub on_answer : Answer → Exec W (Unit {0}) → Exec W (Unit {0})
  on_answer (ok NodegroupStatus.active) rest = pure tt
  on_answer (ok NodegroupStatus.degraded) rest = handle_update_failure
  on_answer (ok _) rest = rest
  on_answer (err e) rest = rest
  on_answer panics rest = panic

  -- The loop of `waitForUpdateCompletion`, with the number of goroutines whose call is open and
  -- the answers that were not received yet. An event that cannot happen is passed over.
  unfoldable pub wait_loop : ℕ → List Answer → List WaitEvent → Exec W (Unit {0})
  wait_loop started answers [] = raise env.ctx_err
  wait_loop started answers (ticked ∷ es) = wait_loop (suc started) answers es
  wait_loop zero answers (called ∷ es) = wait_loop zero answers es
  wait_loop (suc started) answers (called ∷ es) =
      answer >>= λ a. wait_loop started (answers ++ (a ∷ [])) es
  wait_loop started [] (received ∷ es) = wait_loop started [] es
  wait_loop started (a ∷ answers) (received ∷ es) = on_answer a (wait_loop started answers es)

  -- `waitForUpdateCompletion`
  unfoldable pub wait_for_update_completion : Exec W (Unit {0})
  wait_for_update_completion =
      total (env.wait_events m.cluster_name group) >>= λ events. wait_loop zero [] events
