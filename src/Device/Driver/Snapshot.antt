-- ===== src/Device/Driver/Snapshot.antt =====
-- The driver over the mock: what it reads is the state that the meter is in.
use owon_xdm1041_server.Base.{
  ◌≡◌, ◌⊎◌, inl, inr, refl, ap, ◌∙◌, ℕ, ◌+◌, true, false, Option, none, some, arith, ok, Text,
  codes, strip, text_eq,
}
use owon_xdm1041_server.Base.Floats.{Floats, IsPrintable}
use owon_xdm1041_server.Device.Commands
use owon_xdm1041_server.Device.Commands.{
  Function, function_value, rate_value, Rate, slow, medium, fast, unit_for, no_range_query, unquote,
  function_from_device, rate_from_device,
}
use owon_xdm1041_server.Device.Mock.{
  MockTransport, mock_transport, in_quotes, range_display, measured,
}
use owon_xdm1041_server.Device.Driver.{
  DeviceState, get_function, get_rate, get_auto_range, range_in, get_range, read_state,
  read_measurement,
}
use owon_xdm1041_server.Device.Driver.Exchange.{
  IsReady, query-handle, handle-function, handle-rate_query, handle-auto_range_query,
  handle-range_query, handle-measure,
}

-- What the driver should report of a meter in this state.
unfoldable pub snapshot : MockTransport → DeviceState
snapshot s = record {
  function = s.function;
  rate = s.rate;
  auto_range = s.auto_range;
  range = range_display s.function;
}

pub read_function : (f : Function) → function_from_device (in_quotes (function_value f)) ≡ ok f
unfolding function_from_device
read_function Commands.volt_dc = refl
read_function _ = refl

pub read_rate : (r : Rate) → rate_from_device (rate_value r) ≡ ok r
unfolding rate_from_device
read_rate slow = refl
read_rate _ = refl

-- The driver asks for the range exactly in the modes where the meter answers.
range_cases :
    (f : Function)
    → ((no_range_query f ≡ true) × (range_display f ≡ none))
      ⊎ ((d : Text) × (no_range_query f ≡ false) × (range_display f ≡ some d) × (unquote d ≡ d))
unfolding no_range_query range_display unquote
range_cases Commands.capacitance = inr (codes "500nF", refl, refl, refl)
range_cases Commands.resistance = inr (codes "5KΩ", refl, refl, refl)
range_cases Commands.curr_dc = inr (codes "5A", refl, refl, refl)
range_cases Commands.curr_ac = inr (codes "5A", refl, refl, refl)
range_cases Commands.continuity = inl (refl, refl)
range_cases Commands.diode = inl (refl, refl)
range_cases Commands.temperature = inl (refl, refl)
range_cases _ = inr (codes "5V", refl, refl, refl)

module _ (F : Floats) (default_timeout : ℕ) where
  get_function-mock :
      (s : MockTransport)
      → IsReady s
      → get_function (mock_transport F) default_timeout s ≡ (ok s.function, s)
  unfolding get_function
  get_function-mock s ready = ground (
    arith,
    query-handle F default_timeout Commands.function s _ s ready (handle-function F s),
    read_function s.function,
  )

  get_rate-mock :
      (s : MockTransport)
      → IsReady s
      → get_rate (mock_transport F) default_timeout s ≡ (ok s.rate, s)
  unfolding get_rate
  get_rate-mock s ready = ground (
    arith,
    query-handle F default_timeout Commands.rate_query s _ s ready (handle-rate_query F s),
    read_rate s.rate,
  )

  get_auto_range-mock :
      (s : MockTransport)
      → IsReady s
      → get_auto_range (mock_transport F) default_timeout s ≡ (ok s.auto_range, s)
  unfolding get_auto_range strip text_eq
  get_auto_range-mock s ready = ground (
    arith,
    query-handle F default_timeout Commands.auto_range_query s _ s ready
        (handle-auto_range_query F s),
  )

  range_in-mock :
      (s : MockTransport)
      → IsReady s
      → range_in (mock_transport F) default_timeout s.function s
        ≡ (ok (range_display s.function), s)
  unfolding range_in
  range_in-mock s ready = elim (range_cases s.function) [
    | inl (silent, e) ↦ ground (arith, silent, e)
    | inr (d, asked, e, bare) ↦ ground (
      arith,
      asked,
      e,
      bare,
      query-handle F default_timeout Commands.range_query s d s ready
          (handle-range_query F s ∙ ap (λ (r : Option Text). (ok r, s)) e),
    )
  ]

  -- On an open mock with no failure due, `read_state` returns the state that the meter is in, by
  -- the front panel or by commands, with the range exactly in the modes that answer for it, and the
  -- meter is as before.
  pub read_state-mock :
      (s : MockTransport)
      → IsReady s
      → read_state (mock_transport F) default_timeout s ≡ (ok (snapshot s), s)
  unfolding read_state get_range snapshot
  read_state-mock s ready = ground (
    arith,
    get_function-mock s ready,
    get_rate-mock s ready,
    get_auto_range-mock s ready,
    range_in-mock s ready,
  )

  -- On an open mock with no failure due, `read_measurement` returns the value that the meter
  -- measures at its next tick, with the active function and that function's unit, and only the tick
  -- has changed. It relies on `float(repr(x))` being `x`.
  pub read_measurement-mock :
      IsPrintable F
      → (s : MockTransport) → IsReady s
      → read_measurement F (mock_transport F) default_timeout s ≡ (
        ok (record {
          value = measured F s.function (s.tick + 1);
          function = s.function;
          unit = unit_for s.function;
        }),
        record s { tick = s.tick + 1 },
      )
  unfolding read_measurement
  read_measurement-mock P s ready = ground (
    arith,
    get_function-mock s ready,
    query-handle F default_timeout Commands.measure s _ (record s { tick = s.tick + 1 }) ready
        (handle-measure F s),
    P.of_text-repr (measured F s.function (s.tick + 1)),
  )
