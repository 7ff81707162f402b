-- ===== src/Tests/Notifier.antt =====
-- Runs of notifier.go.
use mathlib.Core.List.{Perm}
use mathlib.Core.List.Perm
use opsy_ami_operator.Prelude.{List, [], ◌∷◌}
use opsy_ami_operator.Go.{ok, err}
use opsy_ami_operator.Notifier.Multi.{NotificationService, MultiNotifier, RunOrder}
use opsy_ami_operator.Tests.World.{refusal}

abbrev refusing : NotificationService (Unit {0})
refusing = record { send_to = λ _ _ w. (err refusal, w) }

abbrev accepting : NotificationService (Unit {0})
accepting = record { send_to = λ _ _ w. (ok tt, w) }

abbrev two_services : MultiNotifier (Unit {0})
two_services = record { services = refusing ∷ accepting ∷ [] }

abbrev in_order : RunOrder (Unit {0})
in_order l w = (l, w)
