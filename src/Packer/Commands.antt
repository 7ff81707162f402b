-- ===== src/Packer/Commands.antt =====
-- pkg/manager_packer/command.go: the packer commands of a build and their shell line.
pub mod Moves
pub mod Defaults
pub mod Line
use mathlib.Core.Option
use opsy_ami_operator.Prelude.{
  ℕ, zero, suc, ◌+◌, String, Bool, true, false, not, Option, none, some, List, [], ◌∷◌, ◌++◌, map,
  ◌&&◌, ◌||◌, ◌==◌, leb, nat_beq, length, take, drop, get_elem?, if◌then◌else◌,
}
use opsy_ami_operator.Prelude.Texts.{concat, join}
use opsy_ami_operator.Go.{Result, ok, panics, and_then}
use opsy_ami_operator.Api.{PackerBuilder}
use opsy_ami_operator.Api.Commands.{Command, StringMap, entries, command_string}

-- The loop of `findCommandIndex`; its -1 is `none`.
unfoldable pub find_command_index : List Command → String → Option ℕ
find_command_index [] sub_command = none
find_command_index (cmd ∷ cmds) sub_command =
    if cmd.sub_command == sub_command
    then some 0
    else Option.map suc (find_command_index cmds sub_command)

abbrev insert_moved : ℕ → Command → List Command → Result (List Command)
insert_moved to cmd rest =
    if leb to (length rest) then ok (take to rest ++ (cmd ∷ drop to rest)) else panics

abbrev move_found : List Command → ℕ → ℕ → Option Command → Result (List Command)
move_found commands from to none = panics
move_found commands from to (some cmd) =
    insert_moved to cmd (take from commands ++ drop (suc from) commands)

-- `moveCommandToIndex`; an index or a cut out of range panics.
unfoldable pub move_command_to_index : List Command → ℕ → ℕ → Result (List Command)
move_command_to_index commands from to = move_found commands from to (get_elem? commands from)

unfoldable pub default_command : String → Command
default_command sub_command = record {
  args = [];
  color = false;
  debug = false;
  on_error = "";
  sub_command = sub_command;
  variables = none;
  variables_file = "";
  working_dir = "";
}

abbrev place_at : List Command → ℕ → String → Option ℕ → Result (List Command)
place_at commands index sub_command (some existing) =
    if nat_beq existing index then ok commands else move_command_to_index commands existing index
place_at commands index sub_command none =
    if leb (length commands) index
    then ok (commands ++ (default_command sub_command ∷ []))
    else ok (take index commands ++ (default_command sub_command ∷ drop index commands))

-- `ensureCommandAt`
unfoldable pub ensure_command_at : List Command → ℕ → String → Result (List Command)
ensure_command_at commands index sub_command =
    place_at commands index sub_command (find_command_index commands sub_command)

-- A write to a Go map: the value of a key that is there, or a new entry.
abbrev pub map_set : String → String → StringMap → StringMap
map_set k v [] = (k, v) ∷ []
map_set k v ((j, w) ∷ m) = if j == k then (k, v) ∷ m else (j, w) ∷ map_set k v m

abbrev is_nil {ℓ} : {A : Type ℓ} → Option A → Bool
is_nil none = true
is_nil (some _) = false

-- `updateCommand`, on the command at one index of the builder's commands.
unfoldable pub update_command : PackerBuilder → Command → Command
update_command pb cmd =
    let dir = pb.spec.builder.dir in
    let cmd₁ =
      if cmd.working_dir == "" && not (dir == "")
      then record cmd { working_dir = concat (dir ∷ "/" ∷ []) }
      else cmd in
    if cmd₁.sub_command == "build" && not (is_nil pb.spec.ami_filters)
    then record cmd₁ {
      variables = some (
          map_set "region" pb.spec.region
            (map_set "ami_id" pb.status.last_run_base_image_id (entries cmd₁.variables)));
    }
    else cmd₁

abbrev place_build : List Command → Option ℕ → Result (List Command)
place_build commands none = ok (commands ++ (default_command "build" ∷ []))
place_build commands (some i) = if leb 2 i then ok commands else move_command_to_index commands i 2

-- `ensureDefaultCommands`, as the new commands of the builder.
unfoldable pub ensure_default_commands : PackerBuilder → Result (List Command)
ensure_default_commands pb =
    and_then (ensure_command_at pb.spec.builder.commands 0 "init") λ with_init.
      and_then (ensure_command_at with_init 1 "validate") λ with_validate.
        and_then (place_build with_validate (find_command_index with_validate "build"))
          λ with_build. ok (map (update_command pb) with_build)

-- The loop of `ConstructCommand` over the commands; the flag is `seenBuild`.
unfoldable pub collect : Bool → List Command → List String
collect seen_build [] = []
collect seen_build (cmd ∷ cmds) =
    let is_build = cmd.sub_command == "build" in
    let seen = if is_build then true else seen_build in
    let rest = collect seen cmds in if not seen || is_build then command_string cmd ∷ rest else rest

abbrev pub with_commands : PackerBuilder → List Command → PackerBuilder
with_commands pb commands = record pb {
  spec = record pb.spec { builder = record pb.spec.builder { commands = commands } };
}

abbrev pub with_command : PackerBuilder → String → PackerBuilder
with_command pb line = record pb { status = record pb.status { command = line } }

-- `ConstructCommand` before its status update: the builder with its commands and the shell line.
unfoldable pub construct_line : PackerBuilder → Result PackerBuilder
construct_line pb =
    and_then (ensure_default_commands pb) λ commands.
      ok (with_command (with_commands pb commands) (join (collect false commands) " && "))
