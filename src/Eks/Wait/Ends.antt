-- ===== src/Eks/Wait/Ends.antt =====
-- eks.go: how the wait for an update ends.
use opsy_ami_operator.Prelude.{ℕ, zero, suc, String, List, [], ◌∷◌, ◌++◌, ◌≡◌, refl, arith, All}
use opsy_ami_operator.Go.{Exec, ok, err, panics, raise, panic, ◌>>=◌, total}
use opsy_ami_operator.Go.Outcomes.{bind_ok}
use opsy_ami_operator.Env.{Env, WaitEvent, ticked, called, received}
use opsy_ami_operator.Env.Aws.{NodegroupStatus}
use opsy_ami_operator.Eks.{ManagerRefresh}
use opsy_ami_operator.Eks.Wait.{
  Answer, answer, on_answer, read_group, handle_update_failure, wait_loop,
  wait_for_update_completion,
}

All-snoc :
    {A : Type 0} (P : A → Type 0) (xs : List A) (x : A) → All P xs → P x → All P (xs ++ (x ∷ []))
All-snoc P [] x h p = (p, tt)
All-snoc P (y ∷ ys) x h p = (h.0, All-snoc P ys x h.1 p)

module _ {W : Type 0} (env : Env W) (m : ManagerRefresh) (group : String) where
  -- An answer that is not that the group is active.
  abbrev pub IsNotActive : Answer → Type 0
  IsNotActive a = ¬ (a ≡ ok NodegroupStatus.active)

  handle_update_failure-not-ok : (w : W) → ¬ ((handle_update_failure env m group w).0 ≡ ok tt)
  unfolding handle_update_failure raise
  handle_update_failure-not-ok w h =
      let (d, _, e) = bind_ok (env.describe_nodegroup m.cluster_name group) _ w tt h in
      let (g, _, e') = bind_ok (read_group d) _ _ tt e in ground arith

  on_answer-not-ok :
      (a : Answer) (rest : Exec W (Unit {0})) (w : W)
      → IsNotActive a
      → ¬ ((rest w).0 ≡ ok tt)
      → ¬ ((on_answer env m group a rest w).0 ≡ ok tt)
  unfolding on_answer panic
  on_answer-not-ok (ok NodegroupStatus.active) rest w n k h = n refl
  on_answer-not-ok (ok NodegroupStatus.degraded) rest w n k h = handle_update_failure-not-ok w h
  on_answer-not-ok (ok NodegroupStatus.creating) rest w n k h = k h
  on_answer-not-ok (ok NodegroupStatus.updating) rest w n k h = k h
  on_answer-not-ok (ok NodegroupStatus.deleting) rest w n k h = k h
  on_answer-not-ok (ok (NodegroupStatus.other s)) rest w n k h = k h
  on_answer-not-ok (err e) rest w n k h = k h
  on_answer-not-ok panics rest w n k h = ground arith

  module _ (never : (w : W) (a : Answer) → (answer env m group w).0 ≡ ok a → IsNotActive a) where
    wait_loop-not-ok :
        (started : ℕ) (answers : List Answer) (es : List WaitEvent) (w : W)
        → All IsNotActive answers
        → ¬ ((wait_loop env m group started answers es w).0 ≡ ok tt)
    unfolding wait_loop raise
    wait_loop-not-ok started answers [] w k h = ground arith
    wait_loop-not-ok started answers (ticked ∷ es) w k h =
        wait_loop-not-ok (suc started) answers es w k h
    wait_loop-not-ok zero answers (called ∷ es) w k h = wait_loop-not-ok zero answers es w k h
    wait_loop-not-ok (suc started) answers (called ∷ es) w k h =
        let (a, at, rest) = bind_ok (answer env m group) _ w tt h in
        wait_loop-not-ok started (answers ++ (a ∷ [])) es _
          (All-snoc IsNotActive answers a k (never w a at)) rest
    wait_loop-not-ok started [] (received ∷ es) w k h = wait_loop-not-ok started [] es w k h
    wait_loop-not-ok started (a ∷ answers) (received ∷ es) w k h =
        on_answer-not-ok a _ w k.0 (wait_loop-not-ok started answers es w k.1) h

  -- Where no poll finds the group active, the wait does not end with success, whatever happens.
  pub wait_for_update_completion-not-ok :
      ((w : W) (a : Answer) → (answer env m group w).0 ≡ ok a → IsNotActive a)
      → (w : W) → ¬ ((wait_for_update_completion env m group w).0 ≡ ok tt)
  unfolding wait_for_update_completion ◌>>=◌ total
  wait_for_update_completion-not-ok never w h =
      let (events, w') = env.wait_events m.cluster_name group w in
      wait_loop-not-ok never zero [] events w' tt h
