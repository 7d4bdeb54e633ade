-- ===== src/Device/Driver.antt =====
-- src/owon_xdm1041_server/device/driver.py: typed operations over a manager, and probe.py.
pub mod Exchange
pub mod Snapshot
pub mod Online
pub mod Settings
pub mod Recovery
pub mod Stays
pub mod Interference
pub mod Probe
mod Tests
use owon_xdm1041_server.Base.{
  ℕ, Bool, Option, none, some, if◌then◌else◌, Action, Error, Result, ok, err, device_error,
  value_error, pure, raise, lift, ◌>>=◌, try_except, Text, codes, strip, text_eq,
}
use owon_xdm1041_server.Base.Floats.{Floats}
use owon_xdm1041_server.Device.Commands
use owon_xdm1041_server.Device.Commands.{
  Function, function_value, function_from_device, Rate, rate_value, rate_from_device, unit_for,
  unquote, no_range_query, configure_command, set_rate_command,
}
use owon_xdm1041_server.Device.Manager
use owon_xdm1041_server.Device.Transport.{Transport}

pub record Measurement (F : Floats) : Type 0 where
  pub value : F.Float
  pub function : Function
  pub unit : Text

pub record DeviceState : Type 0 where
  pub function : Function
  pub rate : Rate
  pub auto_range : Bool
  pub range : Option Text

-- What `run_probe` returns.
pub record Summary (F : Floats) : Type 0 where
  pub identity : Text
  pub function : Text
  pub rate : Text
  pub auto_range : Bool
  pub range : Option Text
  pub value : F.Float
  pub unit : Text

-- `except DeviceError: h`
abbrev pub on_device_error : {S A : Type 0} → Action S A → Error → Action S A
on_device_error h device_error = h
on_device_error h e = raise e

-- `float(raw)`
abbrev pub float_result : {A : Type 0} → Option A → Result A
float_result none = err value_error
float_result (some x) = ok x

module _ (T : Transport) (default_timeout : ℕ) where
  unfoldable pub identify : Action T.State Text
  identify = Manager.query T default_timeout Commands.identify none

  unfoldable pub get_function : Action T.State Function
  get_function = do
    raw ← Manager.query T default_timeout Commands.function none
    lift (function_from_device raw)

  unfoldable pub set_function : Function → Text → Action T.State (Unit {0})
  set_function function rtd_type =
      Manager.write T default_timeout (configure_command function rtd_type) none

  unfoldable pub get_rate : Action T.State Rate
  get_rate = do
    raw ← Manager.query T default_timeout Commands.rate_query none
    lift (rate_from_device raw)

  unfoldable pub set_rate : Rate → Action T.State (Unit {0})
  set_rate rate = Manager.write T default_timeout (set_rate_command rate) none

  unfoldable pub get_auto_range : Action T.State Bool
  get_auto_range = do
    raw ← Manager.query T default_timeout Commands.auto_range_query none
    pure (text_eq (strip raw) (codes "1"))

  unfoldable pub enable_auto_range : Action T.State (Unit {0})
  enable_auto_range = Manager.write T default_timeout Commands.auto_range none

  -- `get_range` from where the function is known.
  unfoldable pub range_in : Function → Action T.State (Option Text)
  range_in function =
      if no_range_query function
      then pure none
      else try_except
          (do
            raw ← Manager.query T default_timeout Commands.range_query none
            pure (some (unquote raw)))
          (on_device_error (pure none))

  unfoldable pub get_range : Option Function → Action T.State (Option Text)
  get_range none = do function ← get_function; range_in function
  get_range (some function) = range_in function

  unfoldable pub read_state : Action T.State DeviceState
  read_state = do
    function ← get_function
    rate ← get_rate
    auto_range ← get_auto_range
    range ← get_range (some function)
    pure (record { function = function; rate = rate; auto_range = auto_range; range = range })

module _ (F : Floats) (T : Transport) (default_timeout : ℕ) where
  unfoldable pub read_measurement : Action T.State (Measurement F)
  read_measurement = do
    function ← get_function T default_timeout
    raw ← Manager.query T default_timeout Commands.measure none
    value ← lift (float_result (F.of_text raw))
    pure (record { value = value; function = function; unit = unit_for function })

  -- `run_probe` of probe.py
  unfoldable pub run_probe : Action T.State (Summary F)
  run_probe = do
    identity ← identify T default_timeout
    measurement ← read_measurement
    state ← read_state T default_timeout
    pure (record {
      identity = identity;
      function = function_value state.function;
      rate = rate_value state.rate;
      auto_range = state.auto_range;
      range = state.range;
      value = measurement.value;
      unit = measurement.unit;
    })
