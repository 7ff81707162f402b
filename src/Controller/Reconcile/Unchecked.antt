-- ===== src/Controller/Reconcile/Unchecked.antt =====
-- packerbuilder_controller.go: the flight check when the active builds cannot be read.
use opsy_ami_operator.Env.{Env}
