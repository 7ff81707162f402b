-- ===== src/Controller/Reconcile/Goes/Handlers.antt =====
-- packerbuilder_controller.go: to which states the handler of a state brings a build.
use opsy_ami_operator.Prelude.{
  String, Bool, true, false, Option, none, some, List, [], ◌∷◌, if◌then◌else◌,
}
use opsy_ami_operator.Go.{Exec, ok, panic}
use opsy_ami_operator.Go.Evolves.{Evolves}
use opsy_ami_operator.Api.{PackerBuilder}
use opsy_ami_operator.Api.States.{PackerBuilderState}
use opsy_ami_operator.Env.{Env, WatchEvent, build_result, watch_error, tick, log_line}
use opsy_ami_operator.Packer.Manager.{ManagerPacker}
use opsy_ami_operator.Packer.Logs.{Found}
use opsy_ami_operator.Controller.State.{Sys, ReconcileResult}
use opsy_ami_operator.Controller.Handlers.{
  cleanup_build, create_build, complete_build, error_build, flight_check, init,
  transition_to_job_completed_state,
}
use opsy_ami_operator.Controller.Watch.{on_tick, on_log_line, on_result, watch_loop, running_build}
use opsy_ami_operator.Controller.Reconcile.{dispatch}
use opsy_ami_operator.Controller.Reconcile.Goes.{
  checks, creates, joins, runs, completes, publishes, cleans, recovers, fails, Brings-refl,
  RunnerGoes, held-Evolves, in_world-Evolves, pure-Evolves, raise-Evolves, if-Evolves, lift-Evolves,
  value-Evolves, bind-Evolves, handling-Evolves, when-Evolves, set_status-Evolves,
  reconcile_update-Evolves, transition_to_error_state-Evolves,
}

module _ {W : Type 0} (env : Env W) where
  ruleset moves = (
    bind-Evolves, handling-Evolves, pure-Evolves, raise-Evolves, if-Evolves, lift-Evolves,
    value-Evolves, when-Evolves, held-Evolves, in_world-Evolves, set_status-Evolves,
    reconcile_update-Evolves, transition_to_error_state-Evolves, checks, creates, joins, runs,
    completes, publishes, cleans, recovers, fails,
  )

  cleanup_build-Evolves :
      (pm : Option ManagerPacker)
      → Evolves (RunnerGoes {W = W} PackerBuilderState.ami_created) (cleanup_build env pm)
  unfolding cleanup_build
  cleanup_build-Evolves pm = search moves depth 20

  create_build-Evolves :
      (pm : Option ManagerPacker)
      → Evolves (RunnerGoes {W = W} PackerBuilderState.job_creation) (create_build env pm)
  unfolding create_build
  create_build-Evolves pm = search moves depth 20

  complete_build-Evolves :
      Evolves (RunnerGoes {W = W} PackerBuilderState.job_completed) (complete_build env)
  unfolding complete_build
  complete_build-Evolves = search moves depth 20

  error_build-Evolves : Evolves (RunnerGoes {W = W} PackerBuilderState.error) (error_build env)
  unfolding error_build
  error_build-Evolves = search moves depth 20

  flight_check-Evolves :
      (pm : Option ManagerPacker)
      → Evolves (RunnerGoes {W = W} PackerBuilderState.flight_checks) (flight_check env pm)
  unfolding flight_check
  flight_check-Evolves pm = search moves depth 20

  init-Evolves : Evolves (RunnerGoes {W = W} PackerBuilderState.initial) (init env)
  unfolding init
  init-Evolves = search moves depth 20

  transition_to_job_completed_state-Evolves :
      Evolves
        (RunnerGoes {W = W} PackerBuilderState.job_running)
        (transition_to_job_completed_state env)
  unfolding transition_to_job_completed_state
  transition_to_job_completed_state-Evolves = search moves depth 20

  set_pb-Evolves :
      (pb : PackerBuilder)
      → Evolves
          (RunnerGoes {W = W} PackerBuilderState.job_running)
          (λ s. (ok tt, record s { pb = pb }))
  set_pb-Evolves pb = record { at = λ s. Brings-refl _ s.runner }

  on_tick-Evolves :
      (rest : Exec (Sys W) ReconcileResult)
      → Evolves (RunnerGoes {W = W} PackerBuilderState.job_running) rest
      → Evolves (RunnerGoes {W = W} PackerBuilderState.job_running) (on_tick env rest)
  unfolding on_tick
  on_tick-Evolves rest k = search (moves, set_pb-Evolves) depth 20

  on_log_line-Evolves :
      (pm : Option ManagerPacker) (line : String) (f : Found × Bool)
      → Evolves (RunnerGoes {W = W} PackerBuilderState.job_running) (on_log_line env pm line f)
  unfolding on_log_line panic
  on_log_line-Evolves pm line (f, true) = pure-Evolves _ _
  on_log_line-Evolves none line (f, false) = record { at = λ s. Brings-refl _ s.runner }
  on_log_line-Evolves (some m) line (f, false) = held-Evolves _ _

  on_result-Evolves :
      (completed succeeded : Bool) (reason : String) (rest : Exec (Sys W) ReconcileResult)
      → Evolves (RunnerGoes {W = W} PackerBuilderState.job_running) rest
      → Evolves
          (RunnerGoes {W = W} PackerBuilderState.job_running)
          (if completed then on_result env succeeded reason else rest)
  on_result-Evolves false succeeded reason rest k = k
  on_result-Evolves true true reason rest k = transition_to_job_completed_state-Evolves
  on_result-Evolves true false reason rest k = transition_to_error_state-Evolves _ env _

  watch_loop-Evolves :
      (pm : Option ManagerPacker) (logs : Found × Bool) (es : List WatchEvent)
      → Evolves (RunnerGoes {W = W} PackerBuilderState.job_running) (watch_loop env pm logs es)
  unfolding watch_loop
  watch_loop-Evolves pm logs [] = pure-Evolves _ _
  watch_loop-Evolves pm logs (build_result c s r ∷ es) =
      on_result-Evolves c s r _ (watch_loop-Evolves pm logs es)
  watch_loop-Evolves pm logs (watch_error e ∷ es) = transition_to_error_state-Evolves _ env _
  watch_loop-Evolves pm logs (tick ∷ es) = on_tick-Evolves _ (watch_loop-Evolves pm logs es)
  watch_loop-Evolves pm logs (log_line line ∷ es) =
      bind-Evolves _ _ _ (on_log_line-Evolves pm line logs)
        (λ logs'. watch_loop-Evolves pm logs' es)

  running_build-Evolves :
      Evolves (RunnerGoes {W = W} PackerBuilderState.job_running) (running_build env)
  unfolding running_build
  running_build-Evolves = search (moves, watch_loop-Evolves) depth 20

  pub dispatch-Evolves :
      (n : PackerBuilderState) (pm : Option ManagerPacker)
      → Evolves (RunnerGoes {W = W} n) (dispatch env n pm)
  unfolding dispatch
  dispatch-Evolves PackerBuilderState.initial pm = init-Evolves
  dispatch-Evolves PackerBuilderState.flight_checks pm = flight_check-Evolves pm
  dispatch-Evolves PackerBuilderState.job_creation pm = create_build-Evolves pm
  dispatch-Evolves PackerBuilderState.job_running pm = running_build-Evolves
  dispatch-Evolves PackerBuilderState.job_completed pm = complete_build-Evolves
  dispatch-Evolves PackerBuilderState.ami_created pm = cleanup_build-Evolves pm
  dispatch-Evolves PackerBuilderState.error pm = error_build-Evolves
  dispatch-Evolves PackerBuilderState.job_failed pm = raise-Evolves _ _
  dispatch-Evolves (PackerBuilderState.other x) pm = raise-Evolves _ _
