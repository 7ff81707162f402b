-- ===== src/Refresher/Groups.antt =====
-- amirefresher_controller.go: which node groups are updated.
use opsy_ami_operator.Prelude.{
  String, some, ◌↔◌, List, [], ◌∷◌, ◌≡◌, refl, sym, ◌∙◌, inl, inr, arith,
}
use opsy_ami_operator.Go.{Exec, Error, Result, ok, err, panics, pure, raise, handling, ◌>>=◌}
use opsy_ami_operator.Go.Outcomes.{bind-eq-ok, bind_lift-eq-ok}
use opsy_ami_operator.Go.Evolves.{Order, Evolves, Evolves-pure, Evolves-handling}
use opsy_ami_operator.Api.{AmiRefresher}
use opsy_ami_operator.Env.{Env}
use opsy_ami_operator.Eks.{ManagerRefresh, trimmed, trim_node_groups}
use opsy_ami_operator.Eks.Trim.{IsOneOf, trim_node_groups_lem}
use opsy_ami_operator.Eks.Update.{update_node_group_ami}
use opsy_ami_operator.Eks
use opsy_ami_operator.Refresher.{
  HeldAr, outside_ar, read_ar, fail_with, update_config, update_groups, refresh_groups,
}

-- The node groups are given the image one after the other, each with success.
pub data AreUpdated {W : Type 0} (env : Env W) (m : ManagerRefresh) (ami : String)
    : List String → W → W → Type 0 where
  none_left : {w : W} → AreUpdated env m ami [] w w
  next_updated :
      {group : String} {groups : List String} {w w₁ w₂ : W}
      → update_node_group_ami env (some m) group ami update_config w ≡ (ok tt, w₁)
      → AreUpdated env m ami groups w₁ w₂
      → AreUpdated env m ami (group ∷ groups) w w₂

module _ {W : Type 0} (env : Env W) where
  fail_with-not-ok :
      {A : Type 0} (e : Error) (s t : HeldAr W) (a : A) → ¬ (fail_with env e s ≡ (ok a, t))
  unfolding fail_with raise
  fail_with-not-ok e s t a h = let (_, u, _, k) = bind-eq-ok _ _ s t a h in ground arith

  handled :
      {A B : Type 0} (m : Exec W A) (f : A → Exec (HeldAr W) B) (ar : AmiRefresher) (w : W)
      (t : HeldAr W) (b : B)
      → handling (outside_ar m) (fail_with env) f (ar, w) ≡ (ok b, t)
      → (a : A) × (w₁ : W) × (m w ≡ (ok a, w₁)) × (f a (ar, w₁) ≡ (ok b, t))
  unfolding handling outside_ar
  handled {A} m f ar w t b = go (m w) refl
    where
      go :
          (x : Result A × W)
          → m w ≡ x
          → handling (outside_ar (λ _. x)) (fail_with env) f (ar, w) ≡ (ok b, t)
          → (a : A) × (w₁ : W) × (m w ≡ (ok a, w₁)) × (f a (ar, w₁) ≡ (ok b, t))
      go (ok a, w₁) e h = (a, w₁, e, h)
      go (err e', w₁) e h = absurd (fail_with-not-ok e' (ar, w₁) t b h)
      go (panics, w₁) e h = ground arith

  update_groups-AreUpdated :
      (m : ManagerRefresh) (ami : String) (groups : List String) (ar : AmiRefresher) (w : W)
      (t : HeldAr W)
      → update_groups env (some m) ami groups (ar, w) ≡ (ok tt, t)
      → AreUpdated env m ami groups w t.1
  unfolding update_groups pure
  update_groups-AreUpdated m ami [] ar w t h =
      coe 0 1 (i. AreUpdated env m ami [] w (h i).1.1) none_left
  update_groups-AreUpdated m ami (group ∷ groups) ar w t h =
      let (_, w₁, done, rest) = handled _ _ ar w t tt h in
      next_updated done (update_groups-AreUpdated m ami groups ar w₁ t rest)

  after_read :
      {A : Type 0} (f : AmiRefresher → Exec (HeldAr W) A) (ar : AmiRefresher) (w : W)
      (x : Result A × HeldAr W)
      → (read_ar >>= f) (ar, w) ≡ x
      → f ar (ar, w) ≡ x
  unfolding ◌>>=◌ read_ar
  after_read f ar w x h = h

  listed-eq-ok :
      (m : ManagerRefresh) (cluster : String) (w w₁ : W) (groups : List String)
      → Eks.list_node_groups env (some m) cluster w ≡ (ok groups, w₁)
      → env.list_nodegroups cluster w ≡ (ok groups, w₁)
  unfolding Eks.list_node_groups handling raise pure
  listed-eq-ok m cluster w w₁ groups = go (env.list_nodegroups cluster w) refl
    where
      go :
          (x : Result (List String) × W)
          → env.list_nodegroups cluster w ≡ x
          → handling (λ _. x) (λ e. raise (Eks.list_error env cluster e)) pure w ≡ (ok groups, w₁)
          → env.list_nodegroups cluster w ≡ (ok groups, w₁)
      go (ok l, w') e h = e ∙ h
      go (err e', w') e h = ground arith
      go (panics, w') e h = ground arith

  -- Where the refresh of the node groups succeeds, the cluster's groups were listed, and exactly
  -- those that are not excluded were given the image, one after the other, each with success.
  pub refresh_groups-AreUpdated :
      (m : ManagerRefresh) (ar : AmiRefresher) (w : W) (t : HeldAr W)
      → refresh_groups env (some m) (ar, w) ≡ (ok tt, t)
      → (groups left : List String) × (w₁ : W) × (env.list_nodegroups ar.spec.cluster_name w
          ≡ (ok groups, w₁))
        × ((group : String)
            → IsOneOf group left ↔ (IsOneOf group groups × ¬ IsOneOf group ar.spec.exclude))
        × AreUpdated env m ar.spec.ami left w₁ t.1
  unfolding refresh_groups pure
  refresh_groups-AreUpdated m ar w t h =
      let (groups, u, listed, h₁) = bind-eq-ok _ _ (ar, w) t tt (after_read _ ar w (ok tt, t) h) in
      let (groups', w₁, found, same) = handled _ _ ar w u groups listed in
      let (left, trim, h₂) = bind_lift-eq-ok _ _ u t tt h₁ in
      let at : u ≡ (ar, w₁) = sym (λ i. (same i).1) in
      (
        groups,
        left,
        w₁,
        listed-eq-ok m ar.spec.cluster_name w w₁ groups (found ∙ (λ i. ((same i).0, w₁))),
        λ group. trim_node_groups_lem groups ar.spec.exclude left group trim,
        update_groups-AreUpdated m ar.spec.ami left ar w₁ t
            (coe 0 1 (i. update_groups env (some m) ar.spec.ami left (at i) ≡ (ok tt, t)) h₂),
      )

  module _ {R : HeldAr W → HeldAr W → Type 0} (o : Order R)
      (failed : (e : Error) → Evolves R (fail_with env {A = Unit {0}} e)) where
    update_groups-Evolves :
        (m : ManagerRefresh) (ami : String) (groups : List String)
        → ((group : String)
            → IsOneOf group groups
            → Evolves R (outside_ar (update_node_group_ami env (some m) group ami update_config)))
        → Evolves R (update_groups env (some m) ami groups)
    unfolding update_groups
    update_groups-Evolves m ami [] k = Evolves-pure o tt
    update_groups-Evolves m ami (group ∷ groups) k =
        Evolves-handling o _ _ _ (k group (inl refl)) (λ e. failed e)
          (λ _. update_groups-Evolves m ami groups (λ g i. k g (inr i)))
