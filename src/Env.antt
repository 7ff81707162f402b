-- ===== src/Env.antt =====
-- What the operator calls and this repository does not implement: the API server, AWS, Slack, the
-- clock, the scheduler and parsers of the standard library. Each is an action on a world `W` of
-- which nothing is known.
pub mod Kube
pub mod Aws
use opsy_ami_operator.Prelude.{String, Bool, Option, List}
use opsy_ami_operator.Prelude.Int.{ℤ}
use opsy_ami_operator.Go.{Exec, Error, Result}
use opsy_ami_operator.Api.{PackerBuilder, AmiRefresher, ObjectReference}
use opsy_ami_operator.Api.Commands.{StringMap}
use opsy_ami_operator.Api.Conditions.{Time, Duration, OpsyCondition}
use opsy_ami_operator.Env.Kube.{Job}
use opsy_ami_operator.Env.Aws.{Image, Filter, LaunchTemplateData, Nodegroup}

-- client.Client for an object type `O`: Get by the object's own key, Status().Update, and
-- retry.RetryOnConflict with retry.DefaultRetry.
pub record StatusClient (O W : Type 0) : Type 0 where
  pub get_latest : O → Exec W O
  pub update_status : O → Exec W (Unit {0})
  pub retry_on_conflict : Exec W (Unit {0}) → Exec W (Unit {0})

-- The clock, uuid.New, and the parsers of package time (`none` is a parse error).
pub record Clock (W : Type 0) : Type 0 where
  pub now : W → Time × W
  pub new_uuid : W → String × W
  pub parse_duration : String → Option Duration
  pub parse_rfc3339 : String → Result Time
  pub format_time : Time → String

-- Which case of the `select` in `runWithTimeout` is taken: the deadline, the value on the result
-- channel, an error on the error channel, or the zero value of either channel once closed.
pub data Selected : Type 0 where
  deadline result_ready result_closed error_closed : Selected
  error_sent : Error → Selected

pub record Scheduler (W : Type 0) : Type 0 where
  pub select_case : W → Selected × W
  -- In the AMI manager there is no error channel: does the deadline win?
  pub deadline_first : W → Bool × W
  -- `ctx.Err()` of the deadline
  pub ctx_err : Error
  -- `ctx.Err()` while the context may still be live
  pub context_error : W → Option Error × W

pub record KubeApi (W : Type 0) : Type 0 where
  pub packer_builders : StatusClient PackerBuilder W
  pub get_packer_builder : String → String → Exec W PackerBuilder
  -- Patch(ctx, pb, MergeFrom(base)): the object of the reply
  pub patch_packer_builder : PackerBuilder → PackerBuilder → Exec W PackerBuilder
  pub list_jobs : String → StringMap → Exec W (List Job)
  pub get_job : String → String → Exec W Job
  pub create_job : Job → Exec W (Unit {0})
  pub get_secret : String → String → Exec W StringMap
  pub set_controller_reference : PackerBuilder → Job → Result Job
  pub get_reference : Job → Option ObjectReference
  pub ami_refreshers : StatusClient AmiRefresher W
  pub get_ami_refresher : String → String → Exec W AmiRefresher
  -- Update(ctx, ar): the object of the reply
  pub update_ami_refresher : AmiRefresher → Exec W AmiRefresher
  pub record_event : PackerBuilder → String → String → String → W → W

-- config.LoadDefaultConfig and the EC2 calls.
pub record Ec2Api (W : Type 0) : Type 0 where
  pub load_default_config : String → Exec W (Unit {0})
  pub describe_images : List Filter → Exec W (List Image)
  -- ModifyImageAttribute that removes the launch permission of everybody
  pub remove_launch_permission : String → Exec W (Unit {0})
  pub create_tags : String → StringMap → Exec W (Unit {0})
  -- `err.(*smithy.OperationError)`
  pub is_operation_error : Error → Bool
  pub describe_key_pairs : String → Exec W (Unit {0})
  pub delete_key_pair : String → Exec W (Unit {0})
  pub describe_security_groups : String → Exec W (Unit {0})
  pub delete_security_group : String → Exec W (Unit {0})
  -- by name and version; what is returned is the data of each version
  pub describe_launch_template_versions :
      String → String → Exec W (List (Option LaunchTemplateData))
  -- by name, source version and image; what is returned is the version and its number
  pub create_launch_template_version : String → String → String → Exec W (Option (Option ℤ))

-- What the wait for an update goes through: a tick of its ticker, which starts a goroutine; the call
-- of a goroutine, whose answer is then on the channel; and the receipt of an answer. The end of a
-- list is the end of the context.
pub data WaitEvent : Type 0 where
  ticked called received : WaitEvent

-- The EKS calls, by cluster and node group.
pub record EksApi (W : Type 0) : Type 0 where
  pub list_nodegroups : String → Exec W (List String)
  pub describe_nodegroup : String → String → Exec W (Option Nodegroup)
  -- with `MaxUnavailable`
  pub update_nodegroup_config : String → String → Option ℤ → Exec W (Unit {0})
  -- with the version of the launch template
  pub update_nodegroup_version : String → String → String → Exec W (Unit {0})
  -- What happens while `waitForUpdateCompletion` of a node group waits.
  pub wait_events : String → String → W → List WaitEvent × W

-- controllerutil's functions on the list of finalizers.
pub record Finalizers : Type 0 where
  pub contains_finalizer : List String → String → Bool
  pub add_finalizer : List String → String → List String
  pub remove_finalizer : List String → String → List String

-- The patterns of config.go that the log lines are matched with.
pub data Pattern : Type 0 where
  base_ami latest_ami security_group key_pair : Pattern

-- What the `select` of `runningBuild` receives, and the log lines that the streaming goroutine
-- handles in between; the end of a list is the end of the context.
pub data WatchEvent : Type 0 where
  build_result : Bool → Bool → String → WatchEvent
  watch_error : Error → WatchEvent
  tick : WatchEvent
  log_line : String → WatchEvent

-- A block of a Slack message with its texts.
pub data Block : Type 0 where
  header : String → Block
  context : String → Block
  divider : Block
  section : String → List String → Block

pub record SlackPost : Type 0 where
  pub blocks : List Block
  pub color : String
  pub fallback : String

-- sort.Slice on conditions: it is not stable, so only what it promises is known.
pub record Env (W : Type 0) : Type 0 where
  pub clock : Clock W
  pub open clock use *
  pub scheduler : Scheduler W
  pub open scheduler use *
  pub kube : KubeApi W
  pub open kube use *
  pub ec2 : Ec2Api W
  pub open ec2 use *
  pub eks : EksApi W
  pub open eks use *
  pub finalizers : Finalizers
  pub open finalizers use *
  -- `fmt.Sprintf("%d", n)`
  pub format_decimal : ℤ → String
  -- slack.New(token) and PostMessageContext to the channel
  pub post_message : String → String → SlackPost → Exec W (Unit {0})
  -- FindStringSubmatch: the first group, if the line matches
  pub submatch : Pattern → String → Option String
  pub watch_events : PackerBuilder → W → List WatchEvent × W
  pub sort_slice : (OpsyCondition → OpsyCondition → Bool) → List OpsyCondition → List OpsyCondition
