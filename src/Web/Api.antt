-- ===== src/Web/Api.antt =====
-- src/owon_xdm1041_server/web/api.py: the JSON handlers. A handler is an action on the meter and on
-- the store that the application holds, if it holds one; `now` is what the clock shows when the
-- handler asks for it. An `HTTPException` is its status code.
pub mod Schema
pub mod Names
pub mod Rejected
pub mod Answers
mod Tests
use owon_xdm1041_server.Base.{
  ℕ, Option, none, some, List, map, if◌then◌else◌, Action, http_exception, pure, raise, lift, ◌>>=◌,
  ◌>>◌, Text,
}
use owon_xdm1041_server.Base.Floats.{Floats}
use owon_xdm1041_server.Device.Driver
use owon_xdm1041_server.Device.Driver.{read_measurement}
use owon_xdm1041_server.Device.Transport.{Transport}
use owon_xdm1041_server.Models.{Reading, from_measurement}
use owon_xdm1041_server.Storage
use owon_xdm1041_server.Storage.{Sqlite, Database, insert_reading, aggregate, empty_aggregate}
use owon_xdm1041_server.Web.Api.Schema.{
  MeasurementOut, StateOut, SmoothedOut, StatusOut, parse_function, parse_rate, value_or,
  wanted_value, state_out, measurement_out, smoothed_out,
}

-- The driver's meter and `app.state.db`.
pub record App {F : Floats} (Q : Sqlite F) (S : Type 0) : Type 0 where
  pub device : S
  pub store : Option (Database Q)

module _ {F : Floats} (Q : Sqlite F) (T : Transport) (default_timeout : ℕ) where
  -- A step of the driver.
  abbrev pub on_meter : {A : Type 0} → Action T.State A → Action (App Q T.State) A
  on_meter m s = let r = m s.device in (r.0, record s { device = r.1 })

  abbrev pub in_store :
      {A : Type 0}
      → Action (Database Q) A
      → Action (App Q T.State) A
      → Option (Database Q)
      → Action (App Q T.State) A
  in_store m otherwise none s = otherwise s
  in_store m otherwise (some d) s = let r = m d in (r.0, record s { store = some r.1 })

  -- A step of the store, or what is done where there is none.
  abbrev pub on_store :
      {A : Type 0} → Action (Database Q) A → Action (App Q T.State) A → Action (App Q T.State) A
  on_store m otherwise s = in_store m otherwise s.store s

  -- `get_database`
  unfoldable pub get_database : Action (App Q T.State) (Unit {0})
  get_database = on_store (pure tt) (raise (http_exception 503))

  -- `_take_reading`
  unfoldable pub take_reading : F.Float → Action (App Q T.State) (Reading F)
  take_reading now = do
    m ← on_meter (read_measurement F T default_timeout)
    let reading = from_measurement F m now
    on_store (insert_reading Q reading) (pure tt)
    pure reading

  -- `_validate_seconds`
  unfoldable pub validate_seconds : F.Float → Action (App Q T.State) (Unit {0})
  validate_seconds seconds = if F.non_positive seconds then raise (http_exception 422) else pure tt

  -- `_read_state`
  unfoldable pub read_state : Action (App Q T.State) StateOut
  read_state = do state ← on_meter (Driver.read_state T default_timeout); pure (state_out state)

  unfoldable pub identify : Action (App Q T.State) Text
  identify = on_meter (Driver.identify T default_timeout)

  -- The handler `state`.
  unfoldable pub state : Action (App Q T.State) StateOut
  unfolding read_state
  state = read_state

  unfoldable pub measurement : F.Float → Action (App Q T.State) (MeasurementOut F)
  unfolding take_reading
  measurement now = do reading ← take_reading now; pure (measurement_out reading)

  unfoldable pub measurement_smoothed :
      F.Float → Option Text → F.Float → Action (App Q T.State) (SmoothedOut F)
  unfolding validate_seconds get_database take_reading
  measurement_smoothed seconds function now = do
    validate_seconds seconds
    get_database
    reading ← take_reading now
    func_value ← lift (value_or function reading.function)
    let since = F.sub reading.timestamp seconds
    agg ← on_store (aggregate Q (some since) none (some func_value)) (raise (http_exception 503))
    pure (smoothed_out func_value reading.unit seconds agg)

  unfoldable pub status : F.Float → F.Float → Action (App Q T.State) (StatusOut F)
  unfolding validate_seconds take_reading read_state
  status seconds now = do
    validate_seconds seconds
    reading ← take_reading now
    state ← read_state
    let since = F.sub reading.timestamp seconds
    agg ←
        on_store (aggregate Q (some since) none (some reading.function)) (pure (empty_aggregate F))
    pure (record {
      timestamp = reading.timestamp;
      function = reading.function;
      value = reading.value;
      unit = reading.unit;
      state = state;
      smoothed = smoothed_out reading.function reading.unit seconds agg;
    })

  unfoldable pub set_function : Text → Text → Action (App Q T.State) StateOut
  unfolding read_state
  set_function name rtd_type = do
    function ← lift (parse_function name)
    on_meter (Driver.set_function T default_timeout function rtd_type)
    read_state

  unfoldable pub set_rate : Text → Action (App Q T.State) StateOut
  unfolding read_state
  set_rate name = do
    rate ← lift (parse_rate name)
    on_meter (Driver.set_rate T default_timeout rate)
    read_state

  unfoldable pub enable_auto_range : Action (App Q T.State) StateOut
  unfolding read_state
  enable_auto_range = do on_meter (Driver.enable_auto_range T default_timeout); read_state

  unfoldable pub history :
      Option F.Float
      → Option F.Float
      → Option Text
      → Storage.Limit
      → Action (App Q T.State) (List (MeasurementOut F))
  unfolding get_database
  history since until function limit = do
    get_database
    function_value ← lift (wanted_value function)
    readings ←
        on_store (Storage.history Q since until function_value limit) (raise (http_exception 503))
    pure (map measurement_out readings)
