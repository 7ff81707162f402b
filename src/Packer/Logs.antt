-- ===== src/Packer/Logs.antt =====
-- pkg/manager_packer/logstream.go: what is read from the log of a build.
pub mod Match
pub mod Stream
use opsy_ami_operator.Prelude.{String, Bool, true, false, Option, none, some, ◌&&◌, if◌then◌else◌}
use opsy_ami_operator.Go.{Exec, pure, ◌>>=◌, ◌>>◌}
use opsy_ami_operator.Api.{PackerBuilder, PackerBuilderStatus}
use opsy_ami_operator.Env.{Env, Pattern, base_ami, latest_ami, security_group, key_pair}
use opsy_ami_operator.Packer.Manager.{ManagerPacker, Held, outside, write_pb, read_pb}
use opsy_ami_operator.Packer.Images.{handle_ami_updates}

-- The flags `Found` of the four patterns.
pub record Found : Type 0 where
  pub base : Bool
  pub latest : Bool
  pub group : Bool
  pub pair : Bool

abbrev pub nothing_found : Found
nothing_found = record { base = false; latest = false; group = false; pair = false }

abbrev pub found_flag : Pattern → Found → Bool
found_flag base_ami f = f.base
found_flag latest_ami f = f.latest
found_flag security_group f = f.group
found_flag key_pair f = f.pair

abbrev set_flag : Pattern → Found → Found
set_flag base_ami f = record f { base = true }
set_flag latest_ami f = record f { latest = true }
set_flag security_group f = record f { group = true }
set_flag key_pair f = record f { pair = true }

abbrev with_status : (PackerBuilderStatus → PackerBuilderStatus) → PackerBuilder → PackerBuilder
with_status f pb = record pb { status = f pb.status }

-- The pattern's `StatusField`.
abbrev pub set_field : Pattern → String → PackerBuilder → PackerBuilder
set_field base_ami v = with_status (λ s. record s { last_run_base_image_id = v })
set_field latest_ami v = with_status (λ s. record s { last_run_built_image_id = v })
set_field security_group v = with_status (λ s. record s { last_run_security_group_id = v })
set_field key_pair v = with_status (λ s. record s { last_run_key_pair = v })

abbrev pub field_of : Pattern → PackerBuilder → String
field_of base_ami pb = pb.status.last_run_base_image_id
field_of latest_ami pb = pb.status.last_run_built_image_id
field_of security_group pb = pb.status.last_run_security_group_id
field_of key_pair pb = pb.status.last_run_key_pair

abbrev matched : Pattern → Option String → Found × PackerBuilder → Found × PackerBuilder
matched p none s = s
matched p (some v) (f, pb) = (set_flag p f, set_field p v pb)

module _ (submatch : Pattern → String → Option String) where
  -- One round of the loop over the patterns.
  unfoldable pub match_pattern : String → Pattern → Found × PackerBuilder → Found × PackerBuilder
  match_pattern line p (f, pb) =
      if found_flag p f then (f, pb) else matched p (submatch p line) (f, pb)

  -- The loop over the patterns, in the order of `getLogPatterns`.
  unfoldable pub match_line : String → Found × PackerBuilder → Found × PackerBuilder
  match_line line s = match_pattern line key_pair (
      match_pattern line security_group
        (match_pattern line latest_ami (match_pattern line base_ami s)))

abbrev pub all_found : Found → Bool
all_found f = f.base && (f.latest && (f.group && f.pair))

module _ {W : Type 0} (env : Env W) where
  -- `processLogLine`: the new flags, and whether the stream is finished.
  unfoldable pub process_log_line : ManagerPacker → String → Found → Exec (Held W) (Found × Bool)
  process_log_line m line f (pb, w) =
      let (f', pb') = match_line env.submatch line (f, pb) in
      if all_found f'
      then (do updated ← outside (handle_ami_updates env m pb'); pure (f', updated.success))
          (pb', w)
      else (pure (f', false)) (pb', w)
