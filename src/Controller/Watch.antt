-- ===== src/Controller/Watch.antt =====
-- packerbuilder_controller.go: watching a job that runs. `runningBuild` receives from its
-- channels and its ticker while another goroutine handles the log lines on the same builder: the
-- model runs over the events in the order in which they take effect.
pub mod Results
pub mod Pods
use opsy_ami_operator.Prelude.{
  String, Bool, true, false, Option, none, some, List, [], ◌∷◌, if◌then◌else◌,
}
use opsy_ami_operator.Prelude.Int.{ℤ, pos, ltb_ℤ}
use opsy_ami_operator.Prelude.Texts.{concat}
use opsy_ami_operator.Go.{
  Exec, Error, Result, ok, err, panics, errorf, pure, panic, total, handling, ◌>>=◌, ◌>>◌,
  is_not_found,
}
use opsy_ami_operator.Api.{PackerBuilder}
use opsy_ami_operator.Env.{Env, WatchEvent, build_result, watch_error, tick, log_line}
use opsy_ami_operator.Env.Kube.{Job, JobCondition, JobConditionType}
use opsy_ami_operator.Packer.Manager
use opsy_ami_operator.Packer.Manager.{ManagerPacker}
use opsy_ami_operator.Packer.Logs.{Found, nothing_found, process_log_line}
use opsy_ami_operator.Controller.State.{Sys, ReconcileResult, done, held, in_world}
use opsy_ami_operator.Controller.Update.{transition_to_error_state}
use opsy_ami_operator.Controller.Handlers.{transition_to_job_completed_state}

abbrev failed_message : List JobCondition → String
failed_message [] = "Job failed for unknown reason"
failed_message (c ∷ cs) = elim c.type [
  | JobConditionType.complete ↦ failed_message cs
  | JobConditionType.failed ↦ concat ("Job failed: " ∷ c.message ∷ [])
  | JobConditionType.other _ ↦ failed_message cs
]

-- `getJobFailureReason`
unfoldable pub get_job_failure_reason : Job → String
get_job_failure_reason job = failed_message job.status.conditions

-- What the watcher of `watchJobCompletion` delivers: an event's job, an object of another type,
-- or the end of its channel.
pub data JobEvent : Type 0 where
  job_event : Job → JobEvent
  other_object : String → JobEvent
  channel_closed : JobEvent

-- The loop of `watchJobCompletion`: what it sends on its two channels. The list ends where the
-- context does.
unfoldable pub watch_job_completion : List JobEvent → List WatchEvent
unfolding get_job_failure_reason
watch_job_completion [] = []
watch_job_completion (channel_closed ∷ es) =
    watch_error (errorf ("job watch channel closed unexpectedly" ∷ [])) ∷ []
watch_job_completion (other_object type ∷ es) =
    watch_error (errorf ("unexpected object type from watch event: " ∷ type ∷ []))
    ∷ watch_job_completion es
watch_job_completion (job_event job ∷ es) =
    let rest = watch_job_completion es in
    if ltb_ℤ (pos 0) job.status.succeeded
    then build_result true true "Job completed successfully" ∷ []
    else if ltb_ℤ (pos 0) job.status.failed
    then build_result true false (get_job_failure_reason job) ∷ []
    else rest

module _ {W : Type 0} (env : Env W) where
  abbrev set_pb : PackerBuilder → Exec (Sys W) (Unit {0})
  set_pb pb s = (ok tt, record s { pb = pb })

  abbrev pb_of : Exec (Sys W) PackerBuilder
  pb_of s = (ok s.pb, s)

  -- The ticker's case: is the builder there, and its job? `rest` is the loop after it.
  unfoldable pub on_tick : Exec (Sys W) ReconcileResult → Exec (Sys W) ReconcileResult
  on_tick rest = pb_of >>= λ pb.
      handling (in_world (env.get_packer_builder pb.meta.namespace pb.meta.name))
        (λ e.
          if is_not_found e
          then pure done
          else transition_to_error_state env "Failed to verify PackerBuilder existence")
        λ pb'.
          set_pb pb'
          >> handling (in_world (env.get_job pb'.meta.namespace pb'.status.job_name))
              (λ e.
                if is_not_found e
                then transition_to_error_state env "Associated Job was deleted"
                else transition_to_error_state env "Failed to verify Job existence")
              (λ _. rest)

  -- The goroutine of the log stream on one line, with the flags of the patterns and whether the
  -- stream is already finished; the client of a nil manager is read through.
  unfoldable pub on_log_line :
      Option ManagerPacker → String → Found × Bool → Exec (Sys W) (Found × Bool)
  on_log_line pm line (f, true) = pure (f, true)
  on_log_line none line (f, false) = panic
  on_log_line (some m) line (f, false) = held (process_log_line env m line f)

  abbrev pub on_result : Bool → String → Exec (Sys W) ReconcileResult
  on_result true reason = transition_to_job_completed_state env
  on_result false reason = transition_to_error_state env (concat ("Job failed: " ∷ reason ∷ []))

  -- The loop of `runningBuild`.
  unfoldable pub watch_loop :
      Option ManagerPacker → Found × Bool → List WatchEvent → Exec (Sys W) ReconcileResult
  unfolding on_log_line
  watch_loop pm logs [] = pure done
  watch_loop pm logs (build_result completed succeeded reason ∷ es) =
      let rest = watch_loop pm logs es in if completed then on_result succeeded reason else rest
  watch_loop pm logs (watch_error e ∷ es) =
      transition_to_error_state env (concat ("Build watch error: " ∷ e.message ∷ []))
  watch_loop pm logs (tick ∷ es) = on_tick (watch_loop pm logs es)
  watch_loop pm logs (log_line line ∷ es) =
      on_log_line pm line logs >>= λ logs'. watch_loop pm logs' es

  -- `runningBuild`; the stream has a manager of its own, which `streamPodLogs` makes.
  unfoldable pub running_build : Exec (Sys W) ReconcileResult
  running_build = pb_of >>= λ pb. in_world (Manager.new env pb.spec.region) >>= λ pm.
      in_world (total (env.watch_events pb)) >>= λ events.
      watch_loop pm (nothing_found, false) events
