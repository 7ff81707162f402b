-- ===== src/Controller/State.antt =====
-- packerbuilder_controller.go: what a reconciliation works on. It has the builder in memory, the
-- runner that all reconciliations share, and the world.
use opsy_ami_operator.Prelude.{Bool, true, false}
use opsy_ami_operator.Prelude.Int.{pos}
use opsy_ami_operator.Go.{Exec, ok}
use opsy_ami_operator.Api.{PackerBuilder, PackerBuilderStatus}
use opsy_ami_operator.Api.Conditions.{Duration}
use opsy_ami_operator.Opsy.{OpsyRunner}
use opsy_ami_operator.Packer.Manager.{Held}

pub record Sys (W : Type 0) : Type 0 where
  pub pb : PackerBuilder
  pub runner : OpsyRunner
  pub world : W

-- ctrl.Result
pub record ReconcileResult : Type 0 where
  pub requeue : Bool
  pub requeue_after : Duration

abbrev pub done : ReconcileResult
done = record { requeue = false; requeue_after = pos 0 }

abbrev pub requeue_now : ReconcileResult
requeue_now = record { requeue = true; requeue_after = pos 0 }

abbrev pub requeue_in : Duration → ReconcileResult
requeue_in d = record { requeue = false; requeue_after = d }

module _ {W A : Type 0} where
  -- An action on the builder and the world, on the world, on the runner.
  unfoldable pub held : Exec (Held W) A → Exec (Sys W) A
  held m s = let (r, (pb, w)) = m (s.pb, s.world) in (r, record s { pb = pb; world = w })

  unfoldable pub in_world : Exec W A → Exec (Sys W) A
  in_world m s = let (r, w) = m s.world in (r, record s { world = w })

  unfoldable pub on_runner : (PackerBuilder → Exec OpsyRunner A) → Exec (Sys W) A
  on_runner m s = let (r, sm) = m s.pb s.runner in (r, record s { runner = sm })

unfoldable pub set_status :
    {W : Type 0} → (PackerBuilderStatus → PackerBuilderStatus) → Exec (Sys W) (Unit {0})
set_status f s = (ok tt, record s { pb = record s.pb { status = f s.pb.status } })
