-- ===== src/Tests/Refresher.antt =====
-- Runs of amirefresher_controller.go and finalizer.go.
use opsy_ami_operator.Prelude.{
  String, true, false, not, keep_if, some, List, [], ◌∷◌, ◌==◌, ◌≡◌, refl, ◌↔◌, arith, eq_iff,
  if◌then◌else◌,
}
use opsy_ami_operator.Prelude.Int.{pos}
use opsy_ami_operator.Go.{ok, handling, pure, lift, total, when, map_error, ◌>>=◌}
use opsy_ami_operator.Api.{AmiRefresher}
use opsy_ami_operator.Api.Conditions.{OpsyConditionType, ConditionStatus}
use opsy_ami_operator.Cond
use opsy_ami_operator.Status
use opsy_ami_operator.Eks.{ManagerRefresh, list_node_groups, trim_node_groups}
use opsy_ami_operator.Eks.Trim.{IsOneOf}
use opsy_ami_operator.Eks.Update.{
  inspect, roll_out, update_some, update_node_group_ami, update_node_group_config, check_context,
}
use opsy_ami_operator.Finalizer.{finalizer_name, update_with, handle_finalizer}
use opsy_ami_operator.Finalizer.Settled.{IsLawful, IsSettled, Keeps, handle_finalizer_settles}
use opsy_ami_operator.Refresher.{
  refresher_client, outside_ar, read_ar, set_status_condition, refresh, update_groups,
  refresh_groups, reconcile_refresher,
}
use opsy_ami_operator.Refresher.Groups.{AreUpdated, refresh_groups-AreUpdated}
use opsy_ami_operator.Refresher.Deleted.{set_finalizing, reconcile_refresher_deleted}
use opsy_ami_operator.Tests.World.{test_env, test_ar, any_name, test_finalizers}

any_name-kept : (n : String) (l : List String) → any_name n (keep_if (λ g. not (g == n)) l) ≡ false
any_name-kept n [] = refl
any_name-kept n (g ∷ l) = ground (arith, eq_iff g n, any_name-kept n l)

any_name-added :
    (n : String) (l : List String) → any_name n (if any_name n l then l else n ∷ l) ≡ true
any_name-added n l = ground (arith, eq_iff n n)

test_finalizers-IsLawful : IsLawful test_finalizers
test_finalizers-IsLawful = record {
  contains_added = λ l n. any_name-added n l;
  contains_removed = λ l n. any_name-kept n l;
}

abbrev finalized_ar : AmiRefresher
finalized_ar = record test_ar { meta = record test_ar.meta { finalizers = finalizer_name ∷ [] } }

replies_keep : Keeps test_env (refresher_client test_env)
replies_keep obj replied w w' h = ground arith

handle_finalizer_settles_example : IsSettled test_env (refresher_client test_env) finalized_ar
unfolding handle_finalizer update_with when pure
handle_finalizer_settles_example =
    handle_finalizer_settles test_env (refresher_client test_env) replies_keep (λ _ _. refl) test_ar
      finalized_ar tt tt test_finalizers-IsLawful refl

abbrev cluster : ManagerRefresh
cluster = record { cluster_name = "prod" }

refresh_groups-AreUpdated_example :
    (groups left : List String) × (w₁ : Unit {0}) × (test_env.list_nodegroups "prod" tt
      ≡ (ok groups, w₁))
    × ((group : String) → IsOneOf group left ↔ (IsOneOf group groups × ¬ IsOneOf group ("db" ∷ [])))
    × AreUpdated test_env cluster "ami-2" left w₁ tt
unfolding refresh_groups update_groups outside_ar read_ar list_node_groups trim_node_groups
    update_node_group_ami update_some inspect roll_out update_node_group_config check_context when
    handling pure lift total map_error ◌>>=◌
refresh_groups-AreUpdated_example =
    refresh_groups-AreUpdated test_env cluster test_ar tt (test_ar, tt) refl

-- Kept by a finalizer of another controller.
abbrev deleted_ar : AmiRefresher
deleted_ar = record test_ar {
  meta = record test_ar.meta { deletion_timestamp = some (pos 5); finalizers = "other" ∷ [] };
}

abbrev finalizing : AmiRefresher
finalizing = (set_finalizing test_env (deleted_ar, tt)).1.0

set_ok : set_finalizing test_env (deleted_ar, tt) ≡ (ok tt, (finalizing, tt))
unfolding set_status_condition Cond.set_condition Cond.upsert Cond.refresh Status.update
    Status.update_once handling pure lift total ◌>>=◌
set_ok = refl

settled : IsSettled test_env (refresher_client test_env) finalizing
unfolding set_status_condition Cond.set_condition Cond.upsert Cond.refresh Status.update
    Status.update_once handling pure lift total ◌>>=◌
settled = refl

reconcile_refresher_deleted_example :
    reconcile_refresher test_env "images" "nodes" (deleted_ar, tt) ≡ refresh test_env (test_ar, tt)
reconcile_refresher_deleted_example =
    reconcile_refresher_deleted test_env "images" "nodes"
      (record {
        type = OpsyConditionType.initial;
        status = ConditionStatus.condition_true;
        last_transition_time = pos 1;
        reason = "";
        message = "";
      })
      [] (pos 5) deleted_ar finalizing test_ar tt tt tt refl refl refl set_ok settled refl
