-- ===== src/Controller/Reconcile/Guarded.antt =====
-- packerbuilder_controller.go, manager.go: when the flight check starts a new build.
use opsy_ami_operator.Prelude.{
  Bool-cases, String, true, Option, some, none, List, [], ◌∷◌, keep_if, ◌≡◌, ◌≢◌, refl, sym, ap,
  ◌∙◌, ◌⊎◌, inl, inr, arith, if◌then◌else◌,
}
use opsy_ami_operator.Go.{
  Exec, Error, Result, ok, err, panics, wrap, pure, ignore, total, zoom, handling, ◌>>=◌,
  is_not_found,
}
use opsy_ami_operator.Go.Outcomes.{bind-eq-ok}
use opsy_ami_operator.Api.{PackerBuilder}
use opsy_ami_operator.Api.States.{PackerBuilderState}
use opsy_ami_operator.Opsy.{get_current_state}
use opsy_ami_operator.Env.{
  Env, Selected, deadline, result_ready, result_closed, error_closed, error_sent,
}
use opsy_ami_operator.Env.Kube.{Job}
use opsy_ami_operator.Status.{StatusResult}
use opsy_ami_operator.Ami.{passed, failed_with}
use opsy_ami_operator.Packer.Manager.{ManagerPacker, select_result, run_with_timeout}
use opsy_ami_operator.Packer.Active.{
  get_active_builds, active_result, list_and_record, active_build_check, active_build_check_op,
  update_packer_builder_status,
}
use opsy_ami_operator.Packer.Active.Listed.{is_running, get_active_builds_lem}
use opsy_ami_operator.Controller.State.{Sys}
use opsy_ami_operator.Controller.Handlers.{flight_check}
use opsy_ami_operator.Controller.Reconcile.Passed.{active_passed}

module _ {W : Type 0} (env : Env W) where
  -- The jobs of the builder were listed, and none of them is unfinished; or the builder is gone.
  abbrev pub IsClear : String → String → W → Type 0
  IsClear namespace name w =
      ((e : Error) × (w₁ : W) × (env.get_packer_builder namespace name w ≡ (err e, w₁))
        × (is_not_found e ≡ true))
      ⊎ ((latest : PackerBuilder) × (w₁ : W) × (jobs : List Job) × (w₂ : W)
          × (env.get_packer_builder namespace name w ≡ (ok latest, w₁))
          × (env.list_jobs namespace (("created-by", name) ∷ []) w₁ ≡ (ok jobs, w₂))
          × (keep_if is_running jobs ≡ []))

  selected-success :
      (timeout : String) (c : Selected) (r : StatusResult)
      → (select_result env timeout c r).success ≡ true
      → r.success ≡ true
  selected-success timeout deadline r h = ground arith
  selected-success timeout result_ready r h = h
  selected-success timeout result_closed r h = ground arith
  selected-success timeout error_closed r h = ground arith
  selected-success timeout (error_sent e) r h = ground arith

  taken :
      (timeout : String) (r r' : StatusResult) (t u : W)
      → (zoom (λ w. w) (λ _ w. w) (total env.select_case) >>= λ c.
            pure (select_result env timeout c r'))
          t
        ≡ (ok r, u)
      → select_result env timeout (env.select_case t).0 r' ≡ r
  unfolding zoom total pure ◌>>=◌
  taken timeout r r' t u e = cc

  -- A check that passed in time passed.
  untimed :
      (op : Exec W StatusResult) (timeout : String) (w u : W) (r : StatusResult)
      → run_with_timeout env (λ w. w) (λ _ w. w) op timeout w ≡ (ok r, u)
      → r.success ≡ true
      → (r' : StatusResult) × (t : W) × (op w ≡ (ok r', t)) × (r'.success ≡ true)
  unfolding run_with_timeout
  untimed op timeout w u r h good =
      let (r', t, done, rest) = bind-eq-ok op _ w u r h in
      let same = taken timeout r r' t u rest in
      (
        r',
        t,
        done,
        selected-success timeout (env.select_case t).0 r'
            (ap (λ (x : StatusResult). x.success) same ∙ good),
      )

  none_left :
      (jobs : List Job) (name : String) → (active_result env jobs name).success ≡ true → jobs ≡ []
  none_left [] name h = refl
  none_left (job ∷ jobs) name h = ground arith

  recorded_all :
      (pb : PackerBuilder) (jobs : List Job) (name : String) (w u : W) (r : StatusResult)
      → (ignore (update_packer_builder_status env pb jobs) >>= λ _.
            pure (active_result env jobs name))
          w
        ≡ (ok r, u)
      → r.success ≡ true
      → jobs ≡ []
  unfolding pure
  recorded_all pb jobs name w u r h good =
      let (_, t, _, rest) =
        bind-eq-ok (ignore (update_packer_builder_status env pb jobs)) _ w u r h in
      let same : active_result env jobs name ≡ r = cc in
      none_left jobs name (ap (λ (x : StatusResult). x.success) same ∙ good)

  listed :
      (namespace name : String) (latest : PackerBuilder) (w u : W) (r : StatusResult)
      → list_and_record env namespace name latest w ≡ (ok r, u)
      → r.success ≡ true
      → (jobs : List Job) × (w₂ : W) × (env.list_jobs namespace (("created-by", name) ∷ []) w
          ≡ (ok jobs, w₂))
        × (keep_if is_running jobs ≡ [])
  unfolding handling pure
  listed namespace name latest w u r h good =
      go (env.list_jobs namespace (("created-by", name) ∷ []) w) refl h
    where
      go :
          (x : Result (List Job) × W)
          → env.list_jobs namespace (("created-by", name) ∷ []) w ≡ x
          → handling
              (λ _. x)
              (λ e. pure (failed_with (wrap "unable to list jobs" e)))
              (λ jobs.
                ignore (update_packer_builder_status env latest (get_active_builds jobs).0) >>= λ _.
                pure (active_result env (get_active_builds jobs).0 (get_active_builds jobs).1))
              w
            ≡ (ok r, u)
          → (jobs : List Job) × (w₂ : W) × (env.list_jobs namespace (("created-by", name) ∷ []) w
              ≡ (ok jobs, w₂))
            × (keep_if is_running jobs ≡ [])
      go (ok jobs, t) e h' = (
        jobs,
        t,
        e,
        sym (ap (λ (x : List Job × String). x.0) (get_active_builds_lem jobs))
            ∙ recorded_all latest (get_active_builds jobs).0 (get_active_builds jobs).1 t u r h'
                good,
      )
      go (err e', t) e h' = ground arith
      go (panics, t) e h' = ground arith

  cleared :
      (pm : Option ManagerPacker) (namespace name : String) (w u : W) (r : StatusResult)
      → active_build_check_op env pm namespace name w ≡ (ok r, u)
      → r.success ≡ true
      → IsClear namespace name w
  unfolding handling pure
  cleared none namespace name w u r h good = ground arith
  cleared (some m) namespace name w u r h good = go (env.get_packer_builder namespace name w) refl h
    where
      go :
          (x : Result PackerBuilder × W)
          → env.get_packer_builder namespace name w ≡ x
          → handling
              (λ _. x)
              (λ e.
                if is_not_found e
                then pure (passed true "PackerBuilder has been deleted" "")
                else pure (failed_with (wrap "failed to get latest version of PackerBuilder" e)))
              (λ latest. list_and_record env namespace name latest)
              w
            ≡ (ok r, u)
          → IsClear namespace name w
      go (ok latest, w₁) e h' =
          let (jobs, w₂, found, finished) = listed namespace name latest w₁ u r h' good in
          inr (latest, w₁, jobs, w₂, e, found, finished)
      go (err e', w₁) e h' = elim (Bool-cases (is_not_found e')) [
        | inl gone ↦ inl (e', w₁, e, gone)
        | inr there ↦ ground arith
      ]
      go (panics, w₁) e h' = ground arith

  unresolved :
      (pm : Option ManagerPacker) (namespace name : String) (w u : W) (r : StatusResult)
      → active_build_check env pm namespace name w ≡ (ok r, u)
      → r.success ≡ true
      → IsClear namespace name w
  unfolding active_build_check
  unresolved pm namespace name w u r h good =
      let (r', t, done, good') =
        untimed (active_build_check_op env pm namespace name) "30s" w u r h good in
      cleared pm namespace name w t r' done good'

  -- The flight check brings a build to the creation of its job only where the jobs of the builder
  -- were listed and none of them is unfinished, or where the builder is gone.
  pub flight_check-IsClear :
      (pm : Option ManagerPacker) (s : Sys W) (id : String)
      → get_current_state s.runner id ≢ PackerBuilderState.job_creation
      → get_current_state (flight_check env pm s).1.runner id ≡ PackerBuilderState.job_creation
      → IsClear s.pb.meta.namespace s.pb.meta.name s.world
  flight_check-IsClear pm s id before after =
      let (r, w, checked, good, _) = active_passed env pm s id before after in
      unresolved pm s.pb.meta.namespace s.pb.meta.name s.world w r checked good
