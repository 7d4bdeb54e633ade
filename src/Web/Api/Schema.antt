-- ===== src/Web/Api/Schema.antt =====
-- src/owon_xdm1041_server/web/api.py: what the handlers receive and answer, and the names in it.
use owon_xdm1041_server.Base.{
  ℕ, Bool, Option, none, some, List, [], ◌∷◌, map, Result, ok, err, http_exception, Text, codes,
}
use owon_xdm1041_server.Base.Floats.{Floats}
use owon_xdm1041_server.Device.Commands.{
  Function, volt_dc, volt_ac, curr_dc, curr_ac, freq, period, capacitance, continuity, diode,
  resistance, temperature, functions, function_value, Rate, slow, medium, fast, rates, find_member,
}
use owon_xdm1041_server.Device.Driver.{DeviceState}
use owon_xdm1041_server.Models.{Reading, Aggregate}

pub record MeasurementOut (F : Floats) : Type 0 where
  pub timestamp : F.Float
  pub function : Text
  pub value : F.Float
  pub unit : Text

pub record FunctionOption : Type 0 where
  pub name : Text
  pub label : Text

pub record StateOut : Type 0 where
  pub function : Text
  pub rate : Text
  pub auto_range : Bool
  pub range : Option Text

pub record SmoothedOut (F : Floats) : Type 0 where
  pub function : Text
  pub unit : Text
  pub value : Option F.Float
  pub samples : ℕ
  pub window_seconds : F.Float
  pub min : Option F.Float
  pub max : Option F.Float

pub record StatusOut (F : Floats) : Type 0 where
  pub timestamp : F.Float
  pub function : Text
  pub value : F.Float
  pub unit : Text
  pub state : StateOut
  pub smoothed : SmoothedOut F

-- `f.name`
abbrev pub function_name : Function → Text
function_name volt_dc = codes "VOLT_DC"
function_name volt_ac = codes "VOLT_AC"
function_name curr_dc = codes "CURR_DC"
function_name curr_ac = codes "CURR_AC"
function_name freq = codes "FREQ"
function_name period = codes "PERIOD"
function_name capacitance = codes "CAPACITANCE"
function_name continuity = codes "CONTINUITY"
function_name diode = codes "DIODE"
function_name resistance = codes "RESISTANCE"
function_name temperature = codes "TEMPERATURE"

-- `_FUNCTION_LABELS`, in its order.
abbrev pub function_labels : List (Function × Text)
function_labels =
    (volt_dc, codes "DC Voltage")
    ∷ (volt_ac, codes "AC Voltage")
    ∷ (curr_dc, codes "DC Current")
    ∷ (curr_ac, codes "AC Current")
    ∷ (resistance, codes "Resistance")
    ∷ (capacitance, codes "Capacitance")
    ∷ (freq, codes "Frequency")
    ∷ (period, codes "Period")
    ∷ (diode, codes "Diode")
    ∷ (continuity, codes "Continuity")
    ∷ (temperature, codes "Temperature")
    ∷ []

-- The handler `functions`.
abbrev pub function_options : List FunctionOption
function_options = map (λ e. record { name = function_name e.0; label = e.1 }) function_labels

abbrev pub rate_name : Rate → Text
rate_name slow = codes "SLOW"
rate_name medium = codes "MEDIUM"
rate_name fast = codes "FAST"

-- A lookup by name, and its `KeyError` as a status code.
abbrev pub or_unknown : {A : Type 0} → Result A → Result A
or_unknown (ok a) = ok a
or_unknown (err e) = err (http_exception 422)

-- `_parse_function`
unfoldable pub parse_function : Text → Result Function
unfolding find_member
parse_function name = or_unknown (find_member function_name name functions)

-- `_parse_rate`
unfoldable pub parse_rate : Text → Result Rate
unfolding find_member
parse_rate name = or_unknown (find_member rate_name name rates)

-- `_parse_function(function).value if function is not None else …`
abbrev pub value_in : Result Function → Result Text
value_in (ok f) = ok (function_value f)
value_in (err e) = err e

abbrev pub value_or : Option Text → Text → Result Text
value_or none current = ok current
value_or (some name) current = value_in (parse_function name)

-- `_parse_function(function).value if function is not None else None`
abbrev pub some_value : Result Text → Result (Option Text)
some_value (ok v) = ok (some v)
some_value (err e) = err e

abbrev pub wanted_value : Option Text → Result (Option Text)
wanted_value none = ok none
wanted_value (some name) = some_value (value_in (parse_function name))

-- The `StateOut` of `_read_state`.
abbrev pub state_out : DeviceState → StateOut
state_out s = record {
  function = function_name s.function;
  rate = rate_name s.rate;
  auto_range = s.auto_range;
  range = s.range;
}

abbrev pub measurement_out : {F : Floats} → Reading F → MeasurementOut F
measurement_out r = record {
  timestamp = r.timestamp;
  function = r.function;
  value = r.value;
  unit = r.unit;
}

-- The `SmoothedOut` of an aggregate, for the function and the unit that are given.
abbrev pub smoothed_out : {F : Floats} → Text → Text → F.Float → Aggregate F → SmoothedOut F
smoothed_out function unit seconds agg = record {
  function = function;
  unit = unit;
  value = agg.mean;
  samples = agg.count;
  window_seconds = seconds;
  min = agg.min;
  max = agg.max;
}
