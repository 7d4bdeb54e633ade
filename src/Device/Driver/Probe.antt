-- ===== src/Device/Driver/Probe.antt =====
-- What the probe reports of a meter.
use owon_xdm1041_server.Base.{◌≡◌, ℕ, ◌+◌, ok, codes, arith}
use owon_xdm1041_server.Base.Floats.{Floats, IsPrintable}
use owon_xdm1041_server.Device.Commands
use owon_xdm1041_server.Device.Commands.{function_value, rate_value, unit_for}
use owon_xdm1041_server.Device.Mock.{MockTransport, range_display, measured, mock_transport}
use owon_xdm1041_server.Device.Driver.{identify, run_probe}
use owon_xdm1041_server.Device.Driver.Exchange.{IsReady, query-handle, handle-identify}
use owon_xdm1041_server.Device.Driver.Snapshot.{snapshot, read_state-mock, read_measurement-mock}

module _ (F : Floats) (default_timeout : ℕ) where
  -- On an open mock with no failure due, `run_probe` returns the meter's identity, its present
  -- state, and the value that it measures at its next tick in the function it reports, with that
  -- function's unit; only the tick has changed. It relies on `float(repr(x))` being `x`.
  pub run_probe-mock :
      IsPrintable F
      → (s : MockTransport) → IsReady s
      → run_probe F (mock_transport F) default_timeout s ≡ (
        ok (record {
          identity = codes "OWON,XDM1041,MOCK0001,V1.2.0,3";
          function = function_value s.function;
          rate = rate_value s.rate;
          auto_range = s.auto_range;
          range = range_display s.function;
          value = measured F s.function (s.tick + 1);
          unit = unit_for s.function;
        }),
        record s { tick = s.tick + 1 },
      )
  unfolding run_probe identify snapshot
  run_probe-mock P s ready = ground (
    arith,
    query-handle F default_timeout Commands.identify s _ s ready (handle-identify F s),
    read_measurement-mock F default_timeout P s ready,
    read_state-mock F default_timeout (record s { tick = s.tick + 1 })
        (record { open_now = ready.open_now; sound = ready.sound }),
  )
