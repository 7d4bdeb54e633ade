-- ===== src/Device/Commands.antt =====
-- src/owon_xdm1041_server/device/commands.py: the SCPI vocabulary of the meter.
pub mod Parsing
mod Tests
use owon_xdm1041_server.Base.{
  Bool, true, false, ◌&&◌, List, [], ◌∷◌, ◌++◌, leb, length, if◌then◌else◌, Result, ok, err,
  value_error, Text, codes, text_eq, strip, upper, split, join_words, first_is, last_is, but_last,
  but_first,
}

-- `_unquote`
unfoldable pub unquote : Text → Text
unfolding strip first_is last_is but_last but_first
unquote raw =
    let token = strip raw in
    if leb 2 (length token) && first_is b'"' token && last_is b'"' token
    then but_last (but_first token)
    else token

abbrev pub identify : Text
identify = codes "*IDN?"

abbrev pub remote : Text
remote = codes "SYST:REM"

abbrev pub local : Text
local = codes "SYST:LOC"

abbrev pub measure : Text
measure = codes "MEAS1?"

abbrev pub function : Text
function = codes "FUNC1?"

abbrev pub rate_query : Text
rate_query = codes "RATE?"

abbrev pub auto_range_query : Text
auto_range_query = codes "AUTO?"

abbrev pub range_query : Text
range_query = codes "RANGE?"

abbrev pub auto_range : Text
auto_range = codes "AUTO"

-- The enumeration, in the order of its members.
pub data Function : Type 0 where
  volt_dc volt_ac curr_dc curr_ac freq period capacitance continuity : Function
  diode resistance temperature : Function

abbrev pub functions : List Function
functions =
    volt_dc ∷ volt_ac ∷ curr_dc ∷ curr_ac ∷ freq ∷ period ∷ capacitance ∷ continuity ∷ diode
    ∷ resistance ∷ temperature ∷ []

-- `member.value`
abbrev pub function_value : Function → Text
function_value volt_dc = codes "VOLT"
function_value volt_ac = codes "VOLT AC"
function_value curr_dc = codes "CURR"
function_value curr_ac = codes "CURR AC"
function_value freq = codes "FREQ"
function_value period = codes "PER"
function_value capacitance = codes "CAP"
function_value continuity = codes "CONT"
function_value diode = codes "DIOD"
function_value resistance = codes "RES"
function_value temperature = codes "TEMP"

module _ {A : Type 0} (value : A → Text) where
  -- The loop over an enumeration's members, and the `ValueError` after it.
  unfoldable pub find_member : Text → List A → Result A
  unfolding text_eq
  find_member token [] = err value_error
  find_member token (m ∷ ms) =
      let rest = find_member token ms in if text_eq (value m) token then ok m else rest

-- What `Function.from_device` compares with the values.
unfoldable pub normalise : Text → Text
unfolding unquote upper split join_words
normalise raw = join_words (split (upper (unquote raw)))

unfoldable pub function_from_device : Text → Result Function
unfolding normalise find_member
function_from_device raw = find_member function_value (normalise raw) functions

pub data Rate : Type 0 where
  slow medium fast : Rate

abbrev pub rates : List Rate
rates = slow ∷ medium ∷ fast ∷ []

abbrev pub rate_value : Rate → Text
rate_value slow = codes "S"
rate_value medium = codes "M"
rate_value fast = codes "F"

unfoldable pub rate_from_device : Text → Result Rate
unfolding unquote upper find_member
rate_from_device raw = find_member rate_value (upper (unquote raw)) rates

-- `UNITS` and `unit_for`
unfoldable pub unit_for : Function → Text
unit_for volt_dc = codes "V"
unit_for volt_ac = codes "V"
unit_for curr_dc = codes "A"
unit_for curr_ac = codes "A"
unit_for freq = codes "Hz"
unit_for period = codes "s"
unit_for capacitance = codes "F"
unit_for continuity = codes "Ω"
unit_for diode = codes "V"
unit_for resistance = codes "Ω"
unit_for temperature = codes "°C"

-- `_CONF_COMMANDS`
unfoldable pub conf_command : Function → Text
conf_command volt_dc = codes "CONF:VOLT:DC"
conf_command volt_ac = codes "CONF:VOLT:AC"
conf_command curr_dc = codes "CONF:CURR:DC"
conf_command curr_ac = codes "CONF:CURR:AC"
conf_command resistance = codes "CONF:RES"
conf_command capacitance = codes "CONF:CAP"
conf_command freq = codes "CONF:FREQ"
conf_command period = codes "CONF:PER"
conf_command diode = codes "CONF:DIOD"
conf_command continuity = codes "CONF:CONT"
conf_command temperature = codes "CONF:TEMP:RTD"

-- `function in NO_RANGE_QUERY`
unfoldable pub no_range_query : Function → Bool
no_range_query diode = true
no_range_query continuity = true
no_range_query temperature = true
no_range_query _ = false

-- The default of `rtd_type`.
abbrev pub kits90 : Text
kits90 = codes "KITS90"

unfoldable pub configure_command : Function → Text → Text
unfolding conf_command
configure_command temperature rtd_type = conf_command temperature ++ (32 ∷ rtd_type)
configure_command f rtd_type = conf_command f

unfoldable pub set_rate_command : Rate → Text
set_rate_command rate = codes "RATE " ++ rate_value rate
