-- ===== src/Packer/Manager.antt =====
-- pkg/manager_packer/manager.go: the manager, its timeouts, and the status of a builder in memory.
use opsy_ami_operator.Prelude.{String, false, Option, none, some, [], ◌∷◌}
use opsy_ami_operator.Prelude.Texts.{concat}
use opsy_ami_operator.Go.{Exec, ok, errorf, wrap, pure, total, zoom, handling, ◌>>=◌}
use opsy_ami_operator.Api.{PackerBuilder}
use opsy_ami_operator.Client.{client_aws}
use opsy_ami_operator.Env.{
  Env, Selected, deadline, result_ready, result_closed, error_closed, error_sent,
}
use opsy_ami_operator.Status
use opsy_ami_operator.Status.{StatusResult, HasStatus}
use opsy_ami_operator.Cond.{ConditionSetter}
use opsy_ami_operator.Ami.{passed, failed_with}

-- A `*ManagerPacker`; nil, when the AWS configuration cannot be loaded, is `none`.
pub record ManagerPacker : Type 0 where
  pub region : String

abbrev pub copy_packer_builder_status : PackerBuilder → PackerBuilder → PackerBuilder
copy_packer_builder_status latest obj = record latest { status = obj.status }

abbrev pub packer_builder_conditions : ConditionSetter PackerBuilder
packer_builder_conditions = record {
  has_status = record { copy_status = copy_packer_builder_status };
  get_conditions = λ pb. pb.status.conditions;
  set_conditions =
      λ conditions pb. record pb { status = record pb.status { conditions = conditions } };
}

-- A builder in memory beside the world.
abbrev pub Held : Type 0 → Type 0
Held W = PackerBuilder × W

module _ {W : Type 0} where
  -- An action of the world, which leaves the builder alone.
  abbrev pub outside : {A : Type 0} → Exec W A → Exec (Held W) A
  outside m (pb, w) = let (r, w') = m w in (r, (pb, w'))

  abbrev pub write_pb : (PackerBuilder → PackerBuilder) → Exec (Held W) (Unit {0})
  write_pb f (pb, w) = (ok tt, (f pb, w))

  abbrev pub read_pb : Exec (Held W) PackerBuilder
  read_pb (pb, w) = (ok pb, (pb, w))

abbrev concat_timeout : String → String
concat_timeout timeout = concat ("operation timed out after " ∷ timeout ∷ [])

module _ {W : Type 0} (env : Env W) where
  -- `r.Status.Update(ctx, pb)`
  unfoldable pub update_status : Exec (Held W) (Unit {0})
  update_status (pb, w) =
      let (r, w') = Status.update packer_builder_conditions.has_status env.packer_builders pb w in
      (r, (pb, w'))

  -- `New`
  unfoldable pub new : String → Exec W (Option ManagerPacker)
  new region =
      handling (client_aws env region) (λ _. pure none)
        (λ _. pure (some (record { region = region })))

  -- The case of the `select` in `runWithTimeout` that is taken. The goroutine closes both
  -- channels when it ends, so the error channel may be taken with no error in it, and the result
  -- channel with the zero result, where the goroutine found the deadline over.
  abbrev pub select_result : String → Selected → StatusResult → StatusResult
  select_result timeout deadline r = failed_with (wrap (concat_timeout timeout) env.ctx_err)
  select_result timeout result_ready r = r
  select_result timeout result_closed r = passed false "" ""
  select_result timeout error_closed r = failed_with (errorf ("operation failed: %!w(<nil>)" ∷ []))
  select_result timeout (error_sent e) r = failed_with (wrap "operation failed" e)

  unfoldable pub run_with_timeout :
      {S : Type 0} → (S → W) → (S → W → S) → Exec S StatusResult → String → Exec S StatusResult
  run_with_timeout world with_world op timeout = do
    r ← op
    taken ← zoom world with_world (total env.select_case)
    pure (select_result timeout taken r)
