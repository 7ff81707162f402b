-- ===== src/Controller/Reconcile/Progress.antt =====
-- packerbuilder_controller.go: what a whole reconciliation does to the runner of the states.
use opsy_ami_operator.Controller.Steps.{
  RunnerProgress, held-Evolves, in_world-Evolves, bind-Evolves, handling-Evolves, pure-Evolves,
  raise-Evolves, if-Evolves, lift-Evolves, value-Evolves, ignore-Evolves, when-Evolves,
  set_status-Evolves, set_state-Evolves, set_condition-Evolves, reconcile_update-Evolves,
  transition_to_error_state-Evolves,
}
use opsy_ami_operator.Prelude.{
  String, Bool, true, false, Option, none, some, List, [], ◌∷◌, if◌then◌else◌,
}
use opsy_ami_operator.Go.{Exec, ok, panic}
use opsy_ami_operator.Go.Evolves.{Evolves}
use opsy_ami_operator.Api.{PackerBuilder}
use opsy_ami_operator.Api.States.{PackerBuilderState}
use opsy_ami_operator.Opsy.Graph.{Progress, Progress-refl}
use opsy_ami_operator.Env.{Env, WatchEvent, build_result, watch_error, tick, log_line}
use opsy_ami_operator.Packer.Manager.{ManagerPacker}
use opsy_ami_operator.Packer.Logs.{Found}
use opsy_ami_operator.Controller.State.{Sys, ReconcileResult}
use opsy_ami_operator.Controller.Handlers.{
  cleanup_build, create_build, complete_build, error_build, flight_check, init,
  transition_to_job_completed_state,
}
use opsy_ami_operator.Controller.Watch.{on_tick, on_log_line, on_result, watch_loop, running_build}
use opsy_ami_operator.Controller.Reconcile.{
  dispatch, sync_runner, catch_rek, reconcile_found, reconcile,
}

module _ {W : Type 0} (env : Env W) where
  ruleset moves = (
    bind-Evolves, handling-Evolves, pure-Evolves, raise-Evolves, if-Evolves, lift-Evolves,
    value-Evolves, when-Evolves, held-Evolves, in_world-Evolves, set_status-Evolves,
    reconcile_update-Evolves, transition_to_error_state-Evolves,
  )

  cleanup_build-Evolves :
      (pm : Option ManagerPacker) → Evolves (RunnerProgress {W = W}) (cleanup_build env pm)
  unfolding cleanup_build
  cleanup_build-Evolves pm = search moves depth 20

  create_build-Evolves :
      (pm : Option ManagerPacker) → Evolves (RunnerProgress {W = W}) (create_build env pm)
  unfolding create_build
  create_build-Evolves pm = search moves depth 20

  complete_build-Evolves : Evolves (RunnerProgress {W = W}) (complete_build env)
  unfolding complete_build
  complete_build-Evolves = search moves depth 20

  error_build-Evolves : Evolves (RunnerProgress {W = W}) (error_build env)
  unfolding error_build
  error_build-Evolves = search moves depth 20

  flight_check-Evolves :
      (pm : Option ManagerPacker) → Evolves (RunnerProgress {W = W}) (flight_check env pm)
  unfolding flight_check
  flight_check-Evolves pm = search moves depth 20

  init-Evolves : Evolves (RunnerProgress {W = W}) (init env)
  unfolding init
  init-Evolves = search moves depth 20

  transition_to_job_completed_state-Evolves :
      Evolves (RunnerProgress {W = W}) (transition_to_job_completed_state env)
  unfolding transition_to_job_completed_state
  transition_to_job_completed_state-Evolves = search moves depth 20

  set_pb-Evolves :
      (pb : PackerBuilder) → Evolves (RunnerProgress {W = W}) (λ s. (ok tt, record s { pb = pb }))
  set_pb-Evolves pb = record { at = λ s. Progress-refl s.runner }

  on_tick-Evolves :
      (rest : Exec (Sys W) ReconcileResult)
      → Evolves (RunnerProgress {W = W}) rest
      → Evolves (RunnerProgress {W = W}) (on_tick env rest)
  unfolding on_tick
  on_tick-Evolves rest k = search (moves, set_pb-Evolves) depth 20

  on_log_line-Evolves :
      (pm : Option ManagerPacker) (line : String) (f : Found × Bool)
      → Evolves (RunnerProgress {W = W}) (on_log_line env pm line f)
  unfolding on_log_line panic
  on_log_line-Evolves pm line (f, true) = pure-Evolves _
  on_log_line-Evolves none line (f, false) = record { at = λ s. Progress-refl s.runner }
  on_log_line-Evolves (some m) line (f, false) = held-Evolves _

  on_result-Evolves :
      (completed succeeded : Bool) (reason : String) (rest : Exec (Sys W) ReconcileResult)
      → Evolves (RunnerProgress {W = W}) rest
      → Evolves
          (RunnerProgress {W = W})
          (if completed then on_result env succeeded reason else rest)
  on_result-Evolves false succeeded reason rest k = k
  on_result-Evolves true true reason rest k = transition_to_job_completed_state-Evolves
  on_result-Evolves true false reason rest k = transition_to_error_state-Evolves env _

  watch_loop-Evolves :
      (pm : Option ManagerPacker) (logs : Found × Bool) (es : List WatchEvent)
      → Evolves (RunnerProgress {W = W}) (watch_loop env pm logs es)
  unfolding watch_loop
  watch_loop-Evolves pm logs [] = pure-Evolves _
  watch_loop-Evolves pm logs (build_result c s r ∷ es) =
      on_result-Evolves c s r _ (watch_loop-Evolves pm logs es)
  watch_loop-Evolves pm logs (watch_error e ∷ es) = transition_to_error_state-Evolves env _
  watch_loop-Evolves pm logs (tick ∷ es) = on_tick-Evolves _ (watch_loop-Evolves pm logs es)
  watch_loop-Evolves pm logs (log_line line ∷ es) =
      bind-Evolves _ _ (on_log_line-Evolves pm line logs) (λ logs'. watch_loop-Evolves pm logs' es)

  running_build-Evolves : Evolves (RunnerProgress {W = W}) (running_build env)
  unfolding running_build
  running_build-Evolves = search (moves, watch_loop-Evolves) depth 20

  dispatch-Evolves :
      (s : PackerBuilderState) (pm : Option ManagerPacker)
      → Evolves (RunnerProgress {W = W}) (dispatch env s pm)
  unfolding dispatch
  dispatch-Evolves PackerBuilderState.initial pm = init-Evolves
  dispatch-Evolves PackerBuilderState.flight_checks pm = flight_check-Evolves pm
  dispatch-Evolves PackerBuilderState.job_creation pm = create_build-Evolves pm
  dispatch-Evolves PackerBuilderState.job_running pm = running_build-Evolves
  dispatch-Evolves PackerBuilderState.job_completed pm = complete_build-Evolves
  dispatch-Evolves PackerBuilderState.ami_created pm = cleanup_build-Evolves pm
  dispatch-Evolves PackerBuilderState.error pm = error_build-Evolves
  dispatch-Evolves PackerBuilderState.job_failed pm = raise-Evolves _
  dispatch-Evolves (PackerBuilderState.other s) pm = raise-Evolves _

  sync_runner-Evolves : Evolves (RunnerProgress {W = W}) (sync_runner env)
  unfolding sync_runner
  sync_runner-Evolves = search (moves, set_state-Evolves) depth 20

  catch_rek-Evolves : Evolves (RunnerProgress {W = W}) (catch_rek env)
  unfolding catch_rek
  catch_rek-Evolves = search (moves, sync_runner-Evolves, dispatch-Evolves) depth 20

  reconcile_found-Evolves : Evolves (RunnerProgress {W = W}) (reconcile_found env)
  unfolding reconcile_found
  reconcile_found-Evolves =
      search (moves, catch_rek-Evolves, set_condition-Evolves, ignore-Evolves) depth 30

  found-Evolves :
      (pb : PackerBuilder)
      → Evolves (RunnerProgress {W = W}) (λ s. reconcile_found env (record s { pb = pb }))
  found-Evolves pb = record { at = λ s. reconcile_found-Evolves.at (record s { pb = pb }) }

  reconcile-Evolves :
      (namespace name : String) → Evolves (RunnerProgress {W = W}) (reconcile env namespace name)
  unfolding reconcile
  reconcile-Evolves namespace name = search (moves, found-Evolves) depth 20

  -- A reconciliation, whatever the outcome and however many transitions it makes or is refused,
  -- moves the runner's state of each build along edges of the diagram only.
  pub reconcile-Progress :
      (namespace name : String) (s : Sys W)
      → Progress s.runner (reconcile env namespace name s).1.runner
  reconcile-Progress namespace name s = (reconcile-Evolves namespace name).at s
