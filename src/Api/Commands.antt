-- ===== src/Api/Commands.antt =====
-- packerbuilder_types.go: one packer command and its text.
use opsy_ami_operator.Prelude.{
  String, Bool, not, Option, none, some, List, [], ◌∷◌, ◌++◌, map, ◌==◌, if◌then◌else◌,
}
use opsy_ami_operator.Prelude.Texts.{concat, join}

-- A Go map as its entries, in the order in which `range` yields them; `none` is the nil map.
abbrev pub StringMap : Type 0
StringMap = List (String × String)

-- The constants of OnErrorBehavior, which holds any text.
abbrev on_error_cleanup : String
on_error_cleanup = "cleanup"

abbrev on_error_abort : String
on_error_abort = "abort"

abbrev on_error_ignore : String
on_error_ignore = "ignore"

pub record Command : Type 0 where
  pub args : List String
  pub color : Bool
  pub debug : Bool
  pub on_error : String
  pub sub_command : String
  pub variables : Option StringMap
  pub variables_file : String
  pub working_dir : String

abbrev pub entries : Option StringMap → StringMap
entries none = []
entries (some m) = m

abbrev pub flag_if : Bool → String → List String
flag_if b flag = if b then flag ∷ [] else []

var_flag : String × String → String
var_flag (key, value) = concat ("-var '" ∷ key ∷ "=" ∷ value ∷ "'" ∷ [])

pub build_flags : Command → List String
unfolding var_flag
build_flags pc =
    map var_flag (entries pc.variables)
    ++ (flag_if (not (pc.variables_file == "")) (concat ("-var-file=" ∷ pc.variables_file ∷ []))
        ++ (flag_if pc.debug "-debug"
            ++ (flag_if (not (pc.on_error == "")) (concat ("-on-error=" ∷ pc.on_error ∷ []))
                ++ flag_if (not pc.color) "-color=false")))

pub command_parts : Command → List String
command_parts pc =
    "packer" ∷ pc.sub_command ∷ pc.args
    ++ ((if pc.sub_command == "build" then build_flags pc else [])
        ++ flag_if (not (pc.working_dir == "")) pc.working_dir)

-- `func (pc *Command) String() string`
unfoldable pub command_string : Command → String
unfolding command_parts build_flags
command_string pc = join (command_parts pc) " "
