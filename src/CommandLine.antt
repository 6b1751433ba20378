-- ===== src/CommandLine.antt =====
-- The command line (src/cli/CommandLine.cpp, src/cli/CommandLine.hpp).
pub mod Options
pub mod Known
pub mod Selected
use testforge.Base.{
  ◌==◌, not, drop, Bool, Option, is_empty, any, codes, some, none, false, ◌++◌, ◌∷◌, ◌||◌, ◌&&◌,
  if◌then◌else◌, List, true, [], Bytes, eq_bytes, arith,
}
use testforge.StringMap.{insert, lookup}
use testforge.CommandLine.Options.{commands, listed, is_known, is_flag_option}
use testforge.Strings.Pieces.{cut}
use testforge.Strings.Case.{to_lower}

-- `options` is a map from names to the values given, in order.
pub record ParsedCommand : Type 0 where
  pub command : Bytes
  pub subcommand : Bytes
  pub options : List (Bytes × List Bytes)
  pub positionals : List Bytes
  pub help_requested : Bool
  pub version_requested : Bool
  pub error : Option Bytes

abbrev pub nothing_parsed : ParsedCommand
nothing_parsed = record {
  command = [];
  subcommand = [];
  options = [];
  positionals = [];
  help_requested = false;
  version_requested = false;
  error = none;
}

abbrev pub dash_dash : Bytes
dash_dash = codes "--"

unfoldable pub is_option : Bytes → Bool
is_option [] = false
is_option (c ∷ s) = c == b'-'

unfoldable pub is_long_option : Bytes → Bool
is_long_option [] = false
is_long_option (c ∷ []) = false
is_long_option (c ∷ d ∷ s) = c == b'-' && d == b'-'

-- `parsed.options[name]`, and a value put behind those that it holds.
unfoldable pub values_of : Bytes → List (Bytes × List Bytes) → List Bytes
unfolding lookup
values_of name options = elim (lookup name options) [ none ↦ [] | some vs ↦ vs ]

unfoldable pub touch : Bytes → ParsedCommand → ParsedCommand
unfolding values_of insert
touch name p = record p { options = insert name (values_of name p.options) p.options }

unfoldable pub push_value : Bytes → Bytes → ParsedCommand → ParsedCommand
unfolding values_of insert
push_value name v p = record p {
  options = insert name (values_of name p.options ++ v ∷ []) p.options;
}

abbrev pub with_error : Bytes → ParsedCommand → ParsedCommand
with_error message p = record p { error = some message }

abbrev pub with_help : ParsedCommand → ParsedCommand
with_help p = record p { help_requested = true }

abbrev pub with_version : ParsedCommand → ParsedCommand
with_version p = record p { version_requested = true }

-- What becomes of the loop at an argument: it goes on with the next one, goes on behind the next one,
-- which was taken as a value, or returns.
pub data Turn : Type 0 where
  proceed : ParsedCommand → Turn
  consume : ParsedCommand → Turn
  stop : ParsedCommand → Turn

unfoldable pub unknown_option : Bytes → Bytes → Bytes
unknown_option command name =
    codes "unknown option '--"
    ++ name
    ++ codes "'"
    ++ (if is_empty command then [] else codes " for command '" ++ command ++ codes "'")
    ++ codes "\nRun 'testforge "
    ++ command
    ++ codes " --help' to see the options."

-- A long option that is known, with the value behind its `=` and the argument behind it.
unfoldable pub take_option : Bytes → Option Bytes → Option Bytes → ParsedCommand → Turn
unfolding is_flag_option touch push_value is_long_option
take_option name (some v) next p = proceed (push_value name v p)
take_option name none next p =
    let missing = stop (with_error (codes "option '--" ++ name ++ codes "' requires a value") p) in
    if is_flag_option name then proceed (touch name p) else elim next [
      | none ↦ missing
      | some v ↦ if is_long_option v then missing else consume (push_value name v p)
    ]

unfoldable pub long_option : Bytes → Option Bytes → Option Bytes → ParsedCommand → Turn
unfolding is_known unknown_option take_option eq_bytes
long_option name inline_value next p =
    if eq_bytes name (codes "help")
    then proceed (with_help p)
    else if eq_bytes name (codes "version")
    then proceed (with_version p)
    else if not (is_known p.command name)
    then stop (with_error (unknown_option p.command name) p)
    else take_option name inline_value next p

-- An argument that is not "--".
unfoldable pub turn : Bytes → Option Bytes → ParsedCommand → Turn
unfolding is_option is_long_option long_option cut eq_bytes
turn argument next p =
    let name = cut b'=' (drop 2 argument) in
    if not (is_option argument)
    then proceed (record p { positionals = p.positionals ++ argument ∷ [] })
    else if eq_bytes argument (codes "-h")
    then proceed (with_help p)
    else if eq_bytes argument (codes "-V")
    then proceed (with_version p)
    else if not (is_long_option argument)
    then stop (
        with_error
          (codes "unknown short option '"
            ++ argument
            ++ codes "' (only -h and -V are supported; use the long form otherwise)")
          p)
    else long_option name.0 name.1 next p

-- The main loop; everything behind "--" is positional.
unfoldable pub parse_rest : List Bytes → ParsedCommand → ParsedCommand
unfolding turn eq_bytes
parse_rest [] p = p
parse_rest (a ∷ []) p =
    if eq_bytes a dash_dash
    then p
    else elim (turn a none p) [ proceed q ↦ q | consume q ↦ q | stop q ↦ q ]
parse_rest (a ∷ b ∷ rest) p =
    let others = elim (turn a (some b) p) as (λ _. ParsedCommand) [
      | proceed q ↦ parse_rest (b ∷ rest) q
      | consume q ↦ parse_rest rest q
      | stop q ↦ q
    ] in
    if eq_bytes a dash_dash then record p { positionals = p.positionals ++ (b ∷ rest) } else others

-- The leading flags, before the command word.
unfoldable pub leading_flags : List Bytes → ParsedCommand → List Bytes × ParsedCommand
unfolding eq_bytes
leading_flags [] p = ([], p)
leading_flags (a ∷ rest) p =
    let helped = leading_flags rest (with_help p) in
    let versioned = leading_flags rest (with_version p) in
    if eq_bytes a (codes "-h") || eq_bytes a (codes "--help")
    then helped
    else if eq_bytes a (codes "-V") || eq_bytes a (codes "--version")
    then versioned
    else (a ∷ rest, p)

unfoldable pub command_word : List Bytes × ParsedCommand → List Bytes × ParsedCommand
unfolding is_option to_lower
command_word ([], p) = ([], p)
command_word (a ∷ rest, p) =
    if is_option a then (a ∷ rest, p) else (rest, record p { command = to_lower a })

unfoldable pub subcommand_word : List Bytes × ParsedCommand → List Bytes × ParsedCommand
unfolding is_option to_lower eq_bytes
subcommand_word ([], p) = ([], p)
subcommand_word (a ∷ rest, p) =
    if (eq_bytes p.command (codes "ai") || eq_bytes p.command (codes "db")) && not (is_option a)
    then (rest, record p { subcommand = to_lower a })
    else (a ∷ rest, p)

-- What follows the loop; an error in it was returned at once.
unfoldable pub conclude_with : Option Bytes → ParsedCommand → ParsedCommand
unfolding listed
conclude_with (some message) p = p
conclude_with none p =
    let asked = p.help_requested || p.version_requested in
    if is_empty p.command
    then if asked then p else with_help p
    else if asked || listed p.command commands
    then p
    else with_error (codes "unknown command '" ++ p.command ++ codes "'\nRun 'testforge help'.") p

-- `CommandLine::parse`, on the arguments behind the name of the program.
unfoldable pub parse_arguments : List Bytes → ParsedCommand
unfolding leading_flags command_word subcommand_word parse_rest conclude_with
parse_arguments arguments =
    let start = subcommand_word (command_word (leading_flags arguments nothing_parsed)) in
    let parsed = parse_rest start.0 start.1 in conclude_with parsed.error parsed
