-- ===== src/Finalizer/Settled.antt =====
-- finalizer.go: an object that the finalizer is settled on.
use opsy_ami_operator.Prelude.{
  String, true, false, List, ◌≡◌, refl, sym, ap, ◌∙◌, arith, Bool-cases, inl, inr,
}
use opsy_ami_operator.Go.{Result, ok, err, panics, pure, when}
use opsy_ami_operator.Api.{ObjectMeta}
use opsy_ami_operator.Env.{Env, Finalizers}
use opsy_ami_operator.Finalizer.{
  finalizer_name, ObjectClient, is_zero, update_with, has_finalizer, handle_finalizer,
}

-- What controllerutil says of AddFinalizer, ContainsFinalizer and RemoveFinalizer.
pub record IsLawful (f : Finalizers) : Type 0 where
  pub contains_added :
      (l : List String) (n : String) → f.contains_finalizer (f.add_finalizer l n) n ≡ true
  pub contains_removed :
      (l : List String) (n : String) → f.contains_finalizer (f.remove_finalizer l n) n ≡ false

module _ {O W : Type 0} (env : Env W) (c : ObjectClient O W) where
  -- The reply to an update has the finalizers and the deletion mark that were sent.
  abbrev pub Keeps : Type 0
  Keeps =
      (obj replied : O) (w w' : W)
      → c.update_object obj w ≡ (ok replied, w')
      → ((c.get_meta replied).finalizers ≡ (c.get_meta obj).finalizers)
        × ((c.get_meta replied).deletion_timestamp ≡ (c.get_meta obj).deletion_timestamp)

  -- The object has the finalizer exactly if it is not marked for deletion.
  abbrev pub IsSettled : O → Type 0
  IsSettled obj = has_finalizer env c obj ≡ is_zero (c.get_meta obj).deletion_timestamp

  -- A settled object is left alone, and nothing is sent.
  pub handle_finalizer-IsSettled :
      (obj : O) (w : W) → IsSettled obj → handle_finalizer env c (obj, w) ≡ (ok tt, (obj, w))
  unfolding handle_finalizer when pure
  handle_finalizer-IsSettled obj w h =
      elim (Bool-cases (is_zero (c.get_meta obj).deletion_timestamp)) [
        | inl z ↦ rw z (rw (h ∙ z) refl)
        | inr z ↦ rw z (rw (h ∙ z) refl)
      ]

  left_alone :
      (obj obj' : O) (w w' : W)
      → IsSettled obj
      → handle_finalizer env c (obj, w) ≡ (ok tt, (obj', w'))
      → IsSettled obj'
  left_alone obj obj' w w' settled h =
      let same : ◌≡◌ {A = Result (Unit {0}) × (O × W)} (ok tt, (obj, w)) (ok tt, (obj', w')) =
        sym (handle_finalizer-IsSettled obj w settled) ∙ h in
      coe 0 1 (i. IsSettled (same i).1.0) settled

  -- Reading back what was set.
  abbrev pub SetsMeta : Type 0
  SetsMeta = (obj : O) (meta : ObjectMeta) → c.get_meta (c.set_meta meta obj) ≡ meta

  module _ (keeps : Keeps) (get-set : SetsMeta) where
    update_with-eq-ok :
        (l : List String) (obj obj' : O) (w w' : W)
        → update_with env c l (obj, w) ≡ (ok tt, (obj', w'))
        → c.update_object (c.set_meta (record (c.get_meta obj) { finalizers = l }) obj) w
          ≡ (ok obj', w')
    unfolding update_with
    update_with-eq-ok l obj obj' w w' = go (c.update_object sent w)
      where
        sent : O
        sent = c.set_meta (record (c.get_meta obj) { finalizers = l }) obj

        go :
            (x : Result O × W)
            → (elim x.0 as (λ _. Result (Unit {0}) × (O × W)) [
              | ok replied ↦ (ok tt, (replied, x.1))
              | err e ↦ (err e, (sent, x.1))
              | panics ↦ (panics, (sent, x.1))
            ])
              ≡ (ok tt, (obj', w'))
            → x ≡ (ok obj', w')
        go (ok replied, w₁) h = λ i. (ok (h i).1.0, (h i).1.1)
        go (err e, w₁) h = ground arith
        go (panics, w₁) h = ground arith

    update_with-IsSettled :
        (l : List String) (obj obj' : O) (w w' : W)
        → env.contains_finalizer l finalizer_name ≡ is_zero (c.get_meta obj).deletion_timestamp
        → update_with env c l (obj, w) ≡ (ok tt, (obj', w'))
        → IsSettled obj'
    update_with-IsSettled l obj obj' w w' contained h =
        let sent = record (c.get_meta obj) { finalizers = l } in
        let (names, deletion) =
          keeps (c.set_meta sent obj) obj' w w' (update_with-eq-ok l obj obj' w w' h) in
        ap (λ (x : List String). env.contains_finalizer x finalizer_name)
          (names ∙ ap (λ (x : ObjectMeta). x.finalizers) (get-set obj sent))
        ∙ contained
        ∙ sym (
            ap is_zero
              (deletion ∙ ap (λ (x : ObjectMeta). x.deletion_timestamp) (get-set obj sent)))

    -- Where `HandleFinalizer` succeeds, the object then has the finalizer exactly if it is not marked
    -- for deletion, if controllerutil is lawful and the replies keep what was sent.
    pub handle_finalizer_settles :
        (obj obj' : O) (w w' : W)
        → IsLawful env.finalizers
        → handle_finalizer env c (obj, w) ≡ (ok tt, (obj', w'))
        → IsSettled obj'
    unfolding handle_finalizer when pure
    handle_finalizer_settles obj obj' w w' lawful h =
        elim (Bool-cases (is_zero (c.get_meta obj).deletion_timestamp)) [
          | inl z ↦ elim (Bool-cases (has_finalizer env c obj)) [
            | inl f ↦ left_alone obj obj' w w' (f ∙ sym z) h
            | inr f ↦
                update_with-IsSettled _ obj obj' w w' (lawful.contains_added _ _ ∙ sym z)
                  (rw (z, f) at h)
          ]
          | inr z ↦ elim (Bool-cases (has_finalizer env c obj)) [
            | inl f ↦
                update_with-IsSettled _ obj obj' w w' (lawful.contains_removed _ _ ∙ sym z)
                  (rw (z, f) at h)
            | inr f ↦ left_alone obj obj' w w' (f ∙ sym z) h
          ]
        ]
