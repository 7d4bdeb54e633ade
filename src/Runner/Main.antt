-- ===== src/Runner/Main.antt =====
-- src/owon_xdm1041_server/__main__.py: the command line, and what it prints.
pub mod Printed
use owon_xdm1041_server.Base.{
  ℕ, zero, suc, ◌-◌, Bool, true, false, Option, none, some, List, [], ◌∷◌, ◌++◌, map, length,
  Result, ok, err, Action, Text, codes, text_eq, if◌then◌else◌,
}
use owon_xdm1041_server.Base.Floats.{Floats}
use owon_xdm1041_server.Device.Driver.{Summary}
use owon_xdm1041_server.Device.Serial.{Pyserial}
use owon_xdm1041_server.Runner.{Running, stack_for, probe_command, serve_command}
use owon_xdm1041_server.Scpi.Listener.{Asyncio}
use owon_xdm1041_server.Settings.{Settings}

abbrev pub spaces : ℕ → Text
spaces zero = []
spaces (suc n) = 32 ∷ spaces n

-- `f"{text:>width}"`
unfoldable pub align_right : ℕ → Text → Text
align_right width text = spaces (width - length text) ++ text

-- `f"{value}"` for a value of each type in the summary.
abbrev pub format_bool : Bool → Text
format_bool true = codes "True"
format_bool false = codes "False"

abbrev pub format_optional : Option Text → Text
format_optional none = codes "None"
format_optional (some text) = text

-- `summary.items()`, each value as it is formatted.
unfoldable pub items : {F : Floats} → Summary F → List (Text × Text)
items {F} s =
    (codes "identity", s.identity)
    ∷ (codes "function", s.function)
    ∷ (codes "rate", s.rate)
    ∷ (codes "auto_range", format_bool s.auto_range)
    ∷ (codes "range", format_optional s.range)
    ∷ (codes "value", F.repr s.value)
    ∷ (codes "unit", s.unit)
    ∷ []

-- `f"{key:>10}: {value}"`
unfoldable pub item_line : Text × Text → Text
item_line (key, value) = align_right 10 key ++ codes ": " ++ value

-- What `parse_args` returns, as far as it is looked at: the subcommand, and --mock.
pub record Arguments : Type 0 where
  pub command : Option Text
  pub mock : Bool

-- argparse, where `parse_args` may print and raise `SystemExit`, and the help that it prints.
pub record ArgumentParser : Type 0 where
  pub parse_args : List Text → Result Arguments
  pub help : List Text

abbrev pub is_command : Text → Option Text → Bool
is_command name none = false
is_command name (some command) = text_eq command name

-- The end of `_probe`: the lines that it prints, and the exit code.
abbrev pub print_summary : {F : Floats} → Result (Summary F) → Result ℕ × List Text
print_summary (ok summary) = (ok 0, map item_line (items summary))
print_summary (err e) = (err e, [])

abbrev pub serve_ended : Result (Unit {0}) → Result ℕ × List Text
serve_ended (ok u) = (ok 0, [])
serve_ended (err e) = (err e, [])

module _ (F : Floats) (P : Pyserial) (world : P.World) (N : Asyncio) (parser : ArgumentParser)
    (loaded : Settings) (network : N.World)
    (gathered : (use_mock : Bool)
      → Action (Running N (stack_for F P world loaded use_mock).transport.0.State) (Unit {0})) where
  -- `main` once the arguments are parsed, where the environment gives `loaded`.
  unfoldable pub dispatch : Arguments → Result ℕ × List Text
  dispatch args =
      if is_command (codes "probe") args.command
      then print_summary (probe_command F P world loaded args.mock).0
      else if is_command (codes "serve") args.command
      then serve_ended (serve_command F P world N loaded args.mock network (gathered args.mock)).0
      else (ok 0, parser.help)

  abbrev pub parsed : Result Arguments → Result ℕ × List Text
  parsed (ok args) = dispatch args
  parsed (err e) = (err e, [])

  -- `main`: the exit code, and the lines that it prints, without what argparse, asyncio and the
  -- server print themselves.
  unfoldable pub main : List Text → Result ℕ × List Text
  main argv = parsed (parser.parse_args argv)
