-- ===== src/Main/Logging.antt =====
-- cmd/main.go: the banner, and the logger's configuration.
use opsy_ami_operator.Prelude.{String, List, [], ◌∷◌}
use opsy_ami_operator.Prelude.Texts.{concat}

abbrev red : String
red = "\u{1b}[31m"

abbrev yellow : String
yellow = "\u{1b}[33m"

abbrev green : String
green = "\u{1b}[32m"

abbrev cyan : String
cyan = "\u{1b}[36m"

abbrev magenta : String
magenta = "\u{1b}[35m"

abbrev reset : String
reset = "\u{1b}[0m"

-- The lines of `brandBanner`, as `strings.Split` yields them.
abbrev pub brand_banner : List String
brand_banner =
    ""
    ∷ "  ______                                   ______  __       __ ______       ______                                        __"
    ∷ " /      \\                                 /      \\|  \\     /  \\      \\     /      \\                                      |  \\"
    ∷ "|  ▓▓▓▓▓▓\\ ______   _______ __    __     |  ▓▓▓▓▓▓\\ ▓▓\\   /  ▓▓\\▓▓▓▓▓▓    |  ▓▓▓▓▓▓\\ ______   ______   ______   ______  _| ▓▓_    ______   ______"
    ∷ "| ▓▓  | ▓▓/      \\ /       \\  \\  |  \\    | ▓▓__| ▓▓ ▓▓▓\\ /  ▓▓▓ | ▓▓      | ▓▓  | ▓▓/      \\ /      \\ /      \\ |      \\|   ▓▓ \\  /      \\ /      \\"
    ∷ "| ▓▓  | ▓▓  ▓▓▓▓▓▓\\  ▓▓▓▓▓▓▓ ▓▓  | ▓▓    | ▓▓    ▓▓ ▓▓▓▓\\  ▓▓▓▓ | ▓▓      | ▓▓  | ▓▓  ▓▓▓▓▓▓\\  ▓▓▓▓▓▓\\  ▓▓▓▓▓▓\\ \\▓▓▓▓▓▓\\\\▓▓▓▓▓▓ |  ▓▓▓▓▓▓\\  ▓▓▓▓▓▓\\"
    ∷ "| ▓▓  | ▓▓ ▓▓  | ▓▓\\▓▓    \\| ▓▓  | ▓▓    | ▓▓▓▓▓▓▓▓ ▓▓\\▓▓ ▓▓ ▓▓ | ▓▓      | ▓▓  | ▓▓ ▓▓  | ▓▓ ▓▓    ▓▓ ▓▓   \\▓▓/      ▓▓ | ▓▓ __| ▓▓  | ▓▓ ▓▓   \\▓▓"
    ∷ "| ▓▓__/ ▓▓ ▓▓__/ ▓▓_\\▓▓▓▓▓▓\\ ▓▓__/ ▓▓    | ▓▓  | ▓▓ ▓▓ \\▓▓▓| ▓▓_| ▓▓_     | ▓▓__/ ▓▓ ▓▓__/ ▓▓ ▓▓▓▓▓▓▓▓ ▓▓     |  ▓▓▓▓▓▓▓ | ▓▓|  \\ ▓▓__/ ▓▓ ▓▓"
    ∷ " \\▓▓    ▓▓ ▓▓    ▓▓       ▓▓\\▓▓    ▓▓    | ▓▓  | ▓▓ ▓▓  \\▓ | ▓▓   ▓▓ \\     \\▓▓    ▓▓ ▓▓    ▓▓\\▓▓     \\ ▓▓      \\▓▓    ▓▓  \\▓▓  ▓▓\\▓▓    ▓▓ ▓▓"
    ∷ "  \\▓▓▓▓▓▓| ▓▓▓▓▓▓▓ \\▓▓▓▓▓▓▓ _\\▓▓▓▓▓▓▓     \\▓▓   \\▓▓\\▓▓      \\▓▓\\▓▓▓▓▓▓      \\▓▓▓▓▓▓| ▓▓▓▓▓▓▓  \\▓▓▓▓▓▓▓\\▓▓       \\▓▓▓▓▓▓▓   \\▓▓▓▓  \\▓▓▓▓▓▓ \\▓▓"
    ∷ "         | ▓▓              |  \\__| ▓▓                                              | ▓▓"
    ∷ "         | ▓▓               \\▓▓    ▓▓                                              | ▓▓"
    ∷ "          \\▓▓                \\▓▓▓▓▓▓                                                \\▓▓"
    ∷ "" ∷ "\t\t\tAn Operator to automated AMI lifecycle management in Kubernetes." ∷ "" ∷ []

abbrev colors : List String
colors =
    cyan ∷ cyan ∷ cyan ∷ cyan ∷ cyan ∷ cyan ∷ cyan ∷ cyan ∷ cyan ∷ cyan ∷ cyan ∷ cyan ∷ cyan ∷ []

module _ {W : Type 0} (print : String → W → W) where
  color_print : String → String → W → W
  color_print color text = print (concat (color ∷ text ∷ reset ∷ []))

  -- The loop over the lines: a line past the last color is printed with none.
  print_lines : List String → List String → W → W
  unfolding color_print
  print_lines cs [] w = w
  print_lines [] (line ∷ rest) w = print_lines [] rest (print (concat (line ∷ "\n" ∷ [])) w)
  print_lines (c ∷ cs) (line ∷ rest) w =
      print_lines cs rest (color_print c (concat (line ∷ "\n" ∷ [])) w)

  unfoldable pub print_logo : W → W
  unfolding print_lines
  print_logo w = print_lines colors brand_banner w

-- zapcore.Level
pub data Level : Type 0 where
  debug_level info_level warn_level error_level dpanic_level panic_level fatal_level : Level
  other_level : String → Level

-- The `switch` of `EncodeLevel`.
level_color : Level → String
level_color Level.debug_level = magenta
level_color Level.info_level = green
level_color Level.warn_level = yellow
level_color Level.error_level = red
level_color Level.dpanic_level = red
level_color Level.panic_level = red
level_color Level.fatal_level = red
level_color (Level.other_level l) = reset

-- `EncodeLevel`, with `CapitalString` of the level.
unfoldable pub encode_level : (Level → String) → Level → String
unfolding level_color
encode_level capital_string level =
    concat (level_color level ∷ capital_string level ∷ "\u{1b}[0m" ∷ [])

-- zap.Config: the fields that `main` sets; an encoder of the library goes by its name.
pub record LogConfig : Type 0 where
  pub encoding : String
  pub level : Level
  pub encode_time : String
  pub encode_level : Level → String
  pub encode_caller : String

unfoldable pub log_config : (Level → String) → LogConfig → LogConfig
log_config capital_string config = record config {
  encoding = "console";
  level = Level.debug_level;
  encode_time = "ISO8601TimeEncoder";
  encode_level = encode_level capital_string;
  encode_caller = "ShortCallerEncoder";
}
