-- ===== src/Device/Mock.antt =====
-- src/owon_xdm1041_server/device/mock.py: the in-memory meter. A simulated latency changes no
-- state, and is left out.
pub mod Lawful
use owon_xdm1041_server.Base.{
  ℕ, ◌+◌, ◌%◌, Bool, true, false, not, ◌||◌, Option, none, some, List, [], ◌∷◌, ◌++◌, if◌then◌else◌,
  Action, Result, ok, err, transport_error, index_error, pure, raise, lift, ◌>>=◌, Text, codes,
  text_eq, strip, upper, starts_with, has_text, split,
}
use owon_xdm1041_server.Base.Floats.{Floats}
use owon_xdm1041_server.Device.Commands.{
  Function, volt_dc, volt_ac, curr_dc, curr_ac, freq, period, capacitance, continuity, diode,
  resistance, temperature, function_value, Rate, medium, rate_value, rate_from_device,
}
use owon_xdm1041_server.Device.Transport.{Transport}

pub record MockTransport : Type 0 where
  pub is_open : Bool
  pub function : Function
  pub rate : Rate
  pub auto_range : Bool
  pub remote : Bool
  pub tick : ℕ
  pub fail_next : Option Text

-- `__init__`
abbrev pub new_mock : MockTransport
new_mock = record {
  is_open = false;
  function = volt_dc;
  rate = medium;
  auto_range = true;
  remote = false;
  tick = 0;
  fail_next = none;
}

-- The method `fail_next`.
unfoldable pub set_fail_next : Text → MockTransport → MockTransport
set_fail_next message s = record s { fail_next = some message }

abbrev pub or_old : {A : Type 0} → Option A → A → A
or_old none a = a
or_old (some b) a = b

unfoldable pub set_front_panel :
    Option Function → Option Rate → Option Bool → MockTransport → MockTransport
set_front_panel function rate auto_range s = record s {
  function = or_old function s.function;
  rate = or_old rate s.rate;
  auto_range = or_old auto_range s.auto_range;
}

-- `_RANGE_DISPLAY`
unfoldable pub range_display : Function → Option Text
range_display volt_dc = some (codes "5V")
range_display volt_ac = some (codes "5V")
range_display curr_dc = some (codes "5A")
range_display curr_ac = some (codes "5A")
range_display freq = some (codes "5V")
range_display period = some (codes "5V")
range_display capacitance = some (codes "500nF")
range_display resistance = some (codes "5KΩ")
range_display _ = none

-- The table of `_configure`.
abbrev pub mapping : List (Text × Function)
mapping =
    (codes "CONF:VOLT:AC", volt_ac)
    ∷ (codes "CONF:VOLT:DC", volt_dc)
    ∷ (codes "CONF:VOLT", volt_dc)
    ∷ (codes "CONF:CURR:AC", curr_ac)
    ∷ (codes "CONF:CURR:DC", curr_dc)
    ∷ (codes "CONF:CURR", curr_dc)
    ∷ (codes "CONF:RES", resistance)
    ∷ (codes "CONF:CAP", capacitance)
    ∷ (codes "CONF:FREQ", freq)
    ∷ (codes "CONF:PER", period)
    ∷ (codes "CONF:DIOD", diode)
    ∷ (codes "CONF:CONT", continuity)
    ∷ (codes "CONF:TEMP", temperature)
    ∷ []

-- The loop of `_configure`.
unfoldable pub configure : List (Text × Function) → Text → MockTransport → MockTransport
configure [] u s = s
configure ((prefix, f) ∷ table) u s =
    let rest = configure table u s in
    if starts_with u prefix
    then record s {
      function = f;
      auto_range = if has_text (codes "AUTO") u then true else s.auto_range;
    }
    else rest

-- `words[1]`
abbrev pub second_word : List Text → Result Text
second_word (v ∷ w ∷ ws) = ok w
second_word _ = err index_error

-- The text around the name of the function, as real hardware sends it.
abbrev pub in_quotes : Text → Text
in_quotes t = b'"' ∷ (t ++ (b'"' ∷ []))

-- `self.rate = Rate.from_device(word)`, where finding the word may have raised.
abbrev pub stored_rate : Result Text → Action MockTransport (Option Text)
stored_rate found = do
  word ← lift found
  rate ← lift (rate_from_device word)
  λ s. (ok none, record s { rate = rate })

-- `self.rate = Rate.from_device(command.split()[1])`
unfoldable pub store_rate : Text → Action MockTransport (Option Text)
store_rate command = stored_rate (second_word (split command))

module _ (F : Floats) where
  open F use {Float, literal, of_difference, add, mul, div, repr}

  -- `_BASE_VALUES`
  unfoldable pub base_value : Function → Float
  base_value volt_dc = literal 33 1
  base_value volt_ac = literal 10 1
  base_value curr_dc = literal 5 2
  base_value curr_ac = literal 2 2
  base_value freq = literal 10000 1
  base_value period = literal 1 3
  base_value capacitance = literal 1 7
  base_value continuity = literal 120 1
  base_value diode = literal 6 1
  base_value resistance = literal 10000 1
  base_value temperature = literal 235 1

  -- The value that `_measure` returns when the counter stands at `tick`.
  unfoldable pub measured : Function → ℕ → Float
  measured f tick =
      let wobble = div (of_difference (tick % 20) 10) (literal 10000 1) in
      mul (base_value f) (add (literal 10 1) wobble)

  -- `_handle`
  unfoldable pub handle : Text → Action MockTransport (Option Text)
  handle command s =
      let u = upper command in
      if text_eq u (codes "*IDN?")
      then (ok (some (codes "OWON,XDM1041,MOCK0001,V1.2.0,3")), s)
      else if text_eq u (codes "SYST:REM") || text_eq u (codes "SYST:LOC")
      then (ok none, record s { remote = text_eq u (codes "SYST:REM") })
      else if text_eq u (codes "MEAS1?") || text_eq u (codes "MEAS?")
      then (ok (some (repr (measured s.function (s.tick + 1)))), record s { tick = s.tick + 1 })
      else if text_eq u (codes "MEAS2?")
      then (ok (some (codes "NONe")), s)
      else if text_eq u (codes "FUNC1?") || text_eq u (codes "FUNC?")
      then (ok (some (in_quotes (function_value s.function))), s)
      else if text_eq u (codes "FUNC2?")
      then (ok (some (codes "NONe")), s)
      else if text_eq u (codes "RATE?")
      then (ok (some (rate_value s.rate)), s)
      else if starts_with u (codes "RATE ")
      then store_rate command s
      else if text_eq u (codes "AUTO?")
      then (ok (some (if s.auto_range then codes "1" else codes "0")), s)
      else if text_eq u (codes "AUTO")
      then (ok none, record s { auto_range = true })
      else if text_eq u (codes "RANGE?")
      then (ok (range_display s.function), s)
      else if starts_with u (codes "CONF:")
      then (ok none, configure mapping u s)
      else (ok none, s)

  -- The end of `transact`: a missing answer is a failure if one is expected.
  abbrev pub answer : Bool → Option Text → Action MockTransport (Option Text)
  answer true none = raise transport_error
  answer true (some r) = pure (some r)
  answer false r = pure none

  unfoldable pub transact : Text → Bool → ℕ → Action MockTransport (Option Text)
  transact command expect_response timeout s =
      if not s.is_open then (err transport_error, s) else elim s.fail_next [
        | some message ↦ (err transport_error, record s { fail_next = none })
        | none ↦ (do response ← handle (strip command); answer expect_response response) s
      ]

  abbrev pub mock_transport : Transport
  mock_transport = record {
    State = MockTransport;
    is_open = λ s. s.is_open;
    open_line = λ s. (ok tt, record s { is_open = true });
    close_line = λ s. (ok tt, record s { is_open = false });
    transact = transact;
  }
