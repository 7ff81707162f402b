-- ===== src/Packer/Logs/Stream.antt =====
-- logstream.go: `StreamLogs` and `processLogStream`.
pub mod Read
use opsy_ami_operator.Prelude.{String, Bool, Option, none, some, List, [], ◌∷◌, if◌then◌else◌}
use opsy_ami_operator.Go.{
  Exec, Error, pure, raise, total, handling, ◌>>=◌, is_deadline_exceeded, is_canceled,
}
use opsy_ami_operator.Env.{Env}
use opsy_ami_operator.Packer.Manager.{ManagerPacker, Held, outside}
use opsy_ami_operator.Packer.Logs.{Found, nothing_found, process_log_line}

-- What a scanner reads from the log of a pod: its lines, and `scanner.Err()` behind them.
pub record LogStream : Type 0 where
  pub lines : List String
  pub scan_error : Option Error

-- `Pods(namespace).GetLogs(name, …).Stream(ctx)`, by namespace and name.
abbrev pub OpenLog : Type 0 → Type 0
OpenLog W = String → String → Exec W LogStream

module _ {W : Type 0} (env : Env W) where
  abbrev raise_any : Option Error → Exec (Held W) (Unit {0})
  raise_any none = pure tt
  raise_any (some e) = raise e

  -- `return ctx.Err()`
  abbrev return_context_error : Exec (Held W) (Unit {0})
  return_context_error = outside (total env.context_error) >>= raise_any

  -- What follows the loop, when the scanner has no more lines.
  unfoldable pub after_scan : Option Error → Exec (Held W) (Unit {0})
  after_scan none = pure tt
  after_scan (some e) =
      if is_canceled e
      then return_context_error
      else if is_deadline_exceeded e
      then pure tt
      else raise e

  -- A line is handled unless the context has ended.
  abbrev pub on_line :
      ManagerPacker
      → String
      → Found
      → (Found → Exec (Held W) (Unit {0}))
      → Option Error
      → Exec (Held W) (Unit {0})
  on_line m line f rest (some e) = raise e
  on_line m line f rest none =
      process_log_line env m line f >>= λ (f', finished). if finished then pure tt else rest f'

  -- The loop over the lines.
  unfoldable pub scan_lines :
      ManagerPacker → Option Error → List String → Found → Exec (Held W) (Unit {0})
  scan_lines m scan_error [] f = after_scan scan_error
  scan_lines m scan_error (line ∷ lines) f =
      outside (total env.context_error)
      >>= on_line m line f (λ f'. scan_lines m scan_error lines f')

  -- `processLogStream`
  unfoldable pub process_log_stream : ManagerPacker → LogStream → Exec (Held W) (Unit {0})
  process_log_stream m stream = scan_lines m stream.scan_error stream.lines nothing_found

  -- `StreamLogs`
  unfoldable pub stream_logs :
      OpenLog W → ManagerPacker → String → String → Exec (Held W) (Unit {0})
  stream_logs open_log m name namespace =
      handling (outside (open_log namespace name)) raise (process_log_stream m)
