-- ===== src/Eks/Update/Writes.antt =====
-- eks.go: what an update of a node group writes, and when.
use opsy_ami_operator.Go.Evolves.{Evolves}
use opsy_ami_operator.Env.{Env}
