-- ===== src/Web/Api/Answers.antt =====
-- What the handlers answer over a meter that is ready.
use owon_xdm1041_server.Base.{◌≡◌, ℕ, ◌+◌, false, none, some, ok, true, Text, strip, arith}
use owon_xdm1041_server.Base.Floats.{Floats, IsPrintable}
use owon_xdm1041_server.Device.Commands.{
  Function, function_value, Rate, unit_for, configure_command,
}
use owon_xdm1041_server.Device.Mock.{MockTransport, mock_transport, measured}
use owon_xdm1041_server.Device.Driver.Exchange.{IsReady}
use owon_xdm1041_server.Device.Driver.Settings.{configured, set_function-mock, set_rate-mock}
use owon_xdm1041_server.Device.Driver.Snapshot.{snapshot, read_state-mock, read_measurement-mock}
use owon_xdm1041_server.Models.{Aggregate}
use owon_xdm1041_server.Storage.{Sqlite, Database, insert_reading, aggregate, empty_aggregate}
use owon_xdm1041_server.Web.Api.{
  App, get_database, take_reading, validate_seconds, read_state, measurement_smoothed, status,
  set_function, set_rate, enable_auto_range,
}
use owon_xdm1041_server.Web.Api.Names.{parse_function-name, parse_rate-name}
use owon_xdm1041_server.Web.Api.Schema.{function_name, rate_name, state_out, smoothed_out}
use owon_xdm1041_server.Web.Poller.Sampling.{next_reading}

-- The meter after a measurement.
abbrev pub ticked : MockTransport → MockTransport
ticked m = record m { tick = m.tick + 1 }

module _ {F : Floats} (Q : Sqlite F) (default_timeout : ℕ) where
  read_state-ready :
      (s : App Q MockTransport)
      → IsReady s.device
      → read_state Q (mock_transport F) default_timeout s ≡ (ok (state_out (snapshot s.device)), s)
  unfolding read_state
  read_state-ready s ready = ground (arith, read_state-mock F default_timeout s.device ready)

  -- Over an open mock with no failure due, the handler that sets a function by its name answers
  -- with the state of the meter as it is afterwards: in that function, with auto-range on where the
  -- command holds AUTO, and else as before.
  set_function_answer :
      (f : Function) (rtd_type : Text) (s : App Q MockTransport)
      → IsReady s.device
      → let m = configured f (strip (configure_command f rtd_type)) s.device in
        set_function Q (mock_transport F) default_timeout (function_name f) rtd_type s
        ≡ (ok (state_out (snapshot m)), record s { device = m })
  unfolding set_function configured
  set_function_answer f rtd_type s ready =
      let m = configured f (strip (configure_command f rtd_type)) s.device in
      ground (
        arith,
        parse_function-name f,
        set_function-mock F default_timeout f rtd_type s.device ready,
        read_state-ready (record s { device = m })
            (record { open_now = ready.open_now; sound = ready.sound }),
      )

  -- Over an open mock with no failure due, the handler that sets a rate by its name and the one
  -- that turns auto-range on answer with the state of the meter with just that change.
  set_rate_answer :
      (r : Rate) (s : App Q MockTransport)
      → IsReady s.device
      → let m : MockTransport = record s.device { rate = r } in
        let n : MockTransport = record s.device { auto_range = true } in
        (set_rate Q (mock_transport F) default_timeout (rate_name r) s
          ≡ (ok (state_out (snapshot m)), record s { device = m }))
        × (enable_auto_range Q (mock_transport F) default_timeout s
            ≡ (ok (state_out (snapshot n)), record s { device = n }))
  unfolding set_rate enable_auto_range
  set_rate_answer r s ready =
      let h = set_rate-mock F default_timeout r s.device ready in
      let m : MockTransport = record s.device { rate = r } in
      let n : MockTransport = record s.device { auto_range = true } in
      (
        ground (
          arith,
          parse_rate-name r,
          h.0,
          read_state-ready (record s { device = m })
              (record { open_now = ready.open_now; sound = ready.sound }),
        ),
        ground (
          arith,
          h.1,
          read_state-ready (record s { device = n })
              (record { open_now = ready.open_now; sound = ready.sound }),
        ),
      )

  -- A reading taken where the store accepts it.
  take_reading-stored :
      IsPrintable F
      → (now : F.Float) (s : App Q MockTransport) (d d' : Database Q) → IsReady s.device
      → s.store ≡ some d
      → insert_reading Q (next_reading F s.device now) d ≡ (ok tt, d')
      → take_reading Q (mock_transport F) default_timeout now s
        ≡ (ok (next_reading F s.device now), record { device = ticked s.device; store = some d' })
  unfolding take_reading
  take_reading-stored P now s d d' ready e h =
      ground (arith, read_measurement-mock F default_timeout P s.device ready, e, h)

  take_reading-no_store :
      IsPrintable F
      → (now : F.Float) (s : App Q MockTransport) → IsReady s.device
      → s.store ≡ none
      → take_reading Q (mock_transport F) default_timeout now s
        ≡ (ok (next_reading F s.device now), record s { device = ticked s.device })
  unfolding take_reading
  take_reading-no_store P now s ready e =
      ground (arith, read_measurement-mock F default_timeout P s.device ready, e)

  -- Over an open mock with no failure due, where the new reading is stored: the smoothed reading of
  -- a function that is asked for by name aggregates the readings of that function since the
  -- window's begin, and is answered with the unit of the function that the meter is in. The window
  -- is positive, the aggregate returns, and `float(repr(x))` is `x`.
  pub measurement_smoothed_answer :
      IsPrintable F
      → (f : Function) (seconds now : F.Float) (s : App Q MockTransport) (d d' d'' : Database Q)
        (agg : Aggregate F)
      → IsReady s.device
      → F.non_positive seconds ≡ false
      → s.store ≡ some d
      → insert_reading Q (next_reading F s.device now) d ≡ (ok tt, d')
      → aggregate Q (some (F.sub now seconds)) none (some (function_value f)) d' ≡ (ok agg, d'')
      → measurement_smoothed Q
          (mock_transport F)
          default_timeout
          seconds
          (some (function_name f))
          now
          s
        ≡ (
          ok (smoothed_out (function_value f) (unit_for s.device.function) seconds agg),
          record { device = ticked s.device; store = some d'' },
        )
  unfolding measurement_smoothed validate_seconds get_database
  measurement_smoothed_answer P f seconds now s d d' d'' agg ready positive e h a =
      ground
        (arith, take_reading-stored P now s d d' ready e h, parse_function-name f, positive, e, a)

  -- Over an open mock with no failure due and with no store: the status is one new reading, the
  -- state of the meter, and a window with no samples. The window is positive, and `float(repr(x))`
  -- is `x`.
  status_answer :
      IsPrintable F
      → (seconds now : F.Float) (s : App Q MockTransport) → IsReady s.device
      → F.non_positive seconds ≡ false
      → s.store ≡ none
      → status Q (mock_transport F) default_timeout seconds now s ≡ (
        ok (record {
          timestamp = now;
          function = function_value s.device.function;
          value = measured F s.device.function (s.device.tick + 1);
          unit = unit_for s.device.function;
          state = state_out (snapshot s.device);
          smoothed =
              smoothed_out
                (function_value s.device.function)
                (unit_for s.device.function)
                seconds
                (empty_aggregate F);
        }),
        record s { device = ticked s.device },
      )
  unfolding status validate_seconds snapshot
  status_answer P seconds now s ready positive e = ground (
    arith,
    take_reading-no_store P now s ready e,
    positive,
    e,
    read_state-ready (record s { device = ticked s.device })
        (record { open_now = ready.open_now; sound = ready.sound }),
  )
