-- ===== src/Tests/Eks.antt =====
-- Runs of eks.go.
use opsy_ami_operator.Prelude.{
  Option, ℕ, zero, suc, ◌≡◌, refl, ◌↔◌, true, none, some, ◌⊎◌, arith, [], ◌∷◌,
}
use opsy_ami_operator.Go.{Result, err, ok, handling, pure, lift, total, when, map_error, ◌>>=◌}
use opsy_ami_operator.Eks.{ManagerRefresh, trim_node_groups}
use opsy_ami_operator.Eks.Wait.{Answer, answer, get_node_group_status, wait_for_update_completion}
use opsy_ami_operator.Eks.Wait.Ends.{wait_for_update_completion-not-ok}
use opsy_ami_operator.Eks.Wait.Polls.{ended, tick, call, receive, wait_for_update_completion-Polls}
use opsy_ami_operator.Eks.Update.{
  inspect, roll_out, update_some, update_node_group_ami, update_node_group_config, check_context,
}
use opsy_ami_operator.Eks.Update.Rolled.{
  IsRead, HasImage, HasOther, IsRolledOut, update_node_group_ami-eq-ok,
}
use opsy_ami_operator.Env.{Env, ticked, called, received}
use opsy_ami_operator.Env.Aws.{LaunchTemplate, LaunchTemplateData, Nodegroup, NodegroupStatus}
use opsy_ami_operator.Refresher.{update_config}
use opsy_ami_operator.Tests.World.{any_env, test_env, refusal}
use opsy_ami_operator.Eks.Trim.{IsOneOf, trim_node_groups_lem}

trim_node_groups_lem_example :
    IsOneOf "web" ("web" ∷ []) ↔ (IsOneOf "web" ("web" ∷ "db" ∷ []) × ¬ IsOneOf "web" ("db" ∷ []))
unfolding trim_node_groups
trim_node_groups_lem_example =
    trim_node_groups_lem ("web" ∷ "db" ∷ []) ("db" ∷ []) ("web" ∷ []) "web" refl

abbrev manager : ManagerRefresh
manager = record { cluster_name = "prod" }

-- The answers of the polls: the update goes on, a poll fails, the group is active.
abbrev nth_poll : ℕ → Result (Option Nodegroup)
nth_poll zero = ok (some (record { launch_template = none; status = NodegroupStatus.updating }))
nth_poll (suc zero) = err refusal
nth_poll (suc (suc n)) =
    ok (some (record { launch_template = none; status = NodegroupStatus.active }))

-- The world counts the polls, of which the first two overlap.
abbrev busy_env : Env ℕ
busy_env = record any_env {
  eks = record any_env.eks {
    describe_nodegroup = λ _ _ w. (nth_poll w, suc w);
    wait_events = λ _ _ w. (
      ticked ∷ called ∷ ticked ∷ called ∷ received ∷ ticked ∷ received ∷ called ∷ received ∷ [],
      w,
    );
  };
}

wait_for_update_completion-Polls_example :
    (w' : ℕ) × (wait_for_update_completion busy_env manager "web" 0 ≡ (ok tt, w'))
unfolding answer get_node_group_status handling pure lift total ◌>>=◌
wait_for_update_completion-Polls_example =
    wait_for_update_completion-Polls busy_env manager "web" 0
      (ok NodegroupStatus.updating ∷ err refusal ∷ ok NodegroupStatus.active ∷ [])
      (ok NodegroupStatus.updating ∷ err refusal ∷ []) [] 3
      (tick (
        call _ 1 refl
          (tick (call _ 2 refl (receive (tick (receive (call _ 3 refl (receive ended)))))))))
      refl (tt, (tt, tt)) (omega arith)

abbrev degraded_env : Env (Unit {0})
degraded_env = record test_env {
  eks = record test_env.eks {
    describe_nodegroup = λ _ _ w.
        (ok (some (record { launch_template = none; status = NodegroupStatus.degraded })), w);
  };
}

degraded_answer :
    (w : Unit {0}) (a : Answer)
    → (answer degraded_env manager "web" w).0 ≡ ok a
    → ¬ (a ≡ ok NodegroupStatus.active)
unfolding answer get_node_group_status handling pure lift total ◌>>=◌
degraded_answer w a h k = ground arith

wait_for_update_completion-not-ok_example :
    ¬ ((wait_for_update_completion degraded_env manager "web" tt).0 ≡ ok tt)
wait_for_update_completion-not-ok_example =
    wait_for_update_completion-not-ok degraded_env manager "web" degraded_answer tt

abbrev SameWorld : Unit {0} → Unit {0} → Type 0
SameWorld w w' = w ≡ w'

updated : update_node_group_ami test_env (some manager) "web" "ami-2" update_config tt ≡ (ok tt, tt)
unfolding update_node_group_ami update_some inspect roll_out update_node_group_config check_context
    when handling pure lift total map_error ◌>>=◌
updated = refl

update_node_group_ami-eq-ok_example :
    (t : LaunchTemplate) × (current : Option LaunchTemplateData) × (w₁ : Unit {0}) × IsRead test_env
      manager "web" update_config t current tt w₁
    × ((HasImage update_config.force current "ami-2" × (w₁ ≡ tt))
        ⊎ ((update_config.force ≡ true) ⊎ HasOther current "ami-2")
          × IsRolledOut test_env manager "web" "ami-2" update_config t w₁ tt)
update_node_group_ami-eq-ok_example =
    update_node_group_ami-eq-ok test_env manager "web" "ami-2" update_config tt tt updated
