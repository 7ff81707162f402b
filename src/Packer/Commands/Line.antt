-- ===== src/Packer/Commands/Line.antt =====
-- command.go: which commands the shell line runs.
use opsy_ami_operator.Prelude.{
  ◌≡◌, refl, Bool, true, false, List, [], ◌∷◌, ◌++◌, map, ◌==◌, arith, keep_if, if◌then◌else◌,
}
use opsy_ami_operator.Api.Commands.{Command, command_string}
use opsy_ami_operator.Packer.Commands.{collect}

abbrev pub is_build : Command → Bool
is_build cmd = cmd.sub_command == "build"

-- The commands before the first `build`, and those from it on.
abbrev pub before_build : List Command → List Command
before_build [] = []
before_build (cmd ∷ cmds) = if is_build cmd then [] else cmd ∷ before_build cmds

abbrev pub from_build : List Command → List Command
from_build [] = []
from_build (cmd ∷ cmds) = if is_build cmd then cmd ∷ cmds else from_build cmds

collect_seen :
    (cmds : List Command) → collect true cmds ≡ map command_string (keep_if is_build cmds)
unfolding collect
collect_seen [] = refl
collect_seen (cmd ∷ cmds) = ground (arith, collect_seen cmds)

-- The shell line runs every command before the first `build`, and of the others the `build`
-- commands alone, all in their order.
pub collect_lem :
    (cmds : List Command)
    → collect false cmds
      ≡ map command_string (before_build cmds ++ keep_if is_build (from_build cmds))
unfolding collect
collect_lem [] = refl
collect_lem (cmd ∷ cmds) = ground (arith, collect_lem cmds, collect_seen cmds)
