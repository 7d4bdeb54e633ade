-- ===== src/Web/Poller/Sampling.antt =====
-- What one round of the polling loop does.
use owon_xdm1041_server.Base.{
  ◌≡◌, refl, ℕ, ◌+◌, true, false, none, arith, Error, err, device_error, Text,
}
use owon_xdm1041_server.Base.Floats.{Floats, IsPrintable}
use owon_xdm1041_server.Device.Commands
use owon_xdm1041_server.Device.Commands.{function_value, unit_for}
use owon_xdm1041_server.Device.Manager
use owon_xdm1041_server.Device.Mock.{MockTransport, mock_transport, measured, set_fail_next}
use owon_xdm1041_server.Device.Driver.{get_function, read_measurement}
use owon_xdm1041_server.Device.Driver.Exchange.{IsReady}
use owon_xdm1041_server.Device.Driver.Recovery.{reconnected, transact-fail_next}
use owon_xdm1041_server.Device.Driver.Snapshot.{read_measurement-mock}
use owon_xdm1041_server.Device.Transport.{Transport}
use owon_xdm1041_server.Models.{Reading}
use owon_xdm1041_server.Web.Broadcast.{publish}
use owon_xdm1041_server.Web.Poller.{Live, poll_once, poll_round}

module _ (F : Floats) (T : Transport) (default_timeout : ℕ) where
  -- A round in which the driver raises any exception publishes nothing: only the device is as the
  -- driver left it, and the poller and its broadcaster are as before.
  poll_round-err :
      (now : F.Float) (s : Live F T.State) (e : Error)
      → (read_measurement F T default_timeout s.device).0 ≡ err e
      → poll_round F T default_timeout now s
        ≡ record s { device = (read_measurement F T default_timeout s.device).1 }
  unfolding poll_round poll_once
  poll_round-err now s e h = ground arith

-- The reading that the meter gives next, at a time.
abbrev pub next_reading : (F : Floats) → MockTransport → F.Float → Reading F
next_reading F m now = record {
  timestamp = now;
  function = function_value m.function;
  value = measured F m.function (m.tick + 1);
  unit = unit_for m.function;
}

-- The server after a reading of this meter was published.
abbrev pub sampled :
    {F : Floats} → MockTransport → F.Float → Live F MockTransport → Live F MockTransport
sampled {F} m now s = record s {
  device = record m { tick = m.tick + 1 };
  poller = record s.poller { broadcaster = publish (next_reading F m now) s.poller.broadcaster };
}

module _ (F : Floats) (default_timeout : ℕ) where
  -- Over an open mock with no failure due, a round publishes one reading with the meter's present
  -- function, so that a change at the front panel shows in the next round. It relies on
  -- `float(repr(x))` being `x`.
  poll_round-mock :
      IsPrintable F
      → (now : F.Float) (s : Live F MockTransport) → IsReady s.device
      → poll_round F (mock_transport F) default_timeout now s ≡ sampled s.device now s
  unfolding poll_round poll_once
  poll_round-mock P now s ready =
      ground (arith, read_measurement-mock F default_timeout P s.device ready)

  failed_measurement :
      (message : Text) (m : MockTransport)
      → m.is_open ≡ true
      → read_measurement F (mock_transport F) default_timeout (set_fail_next message m)
        ≡ (err device_error, record m { is_open = false; fail_next = none })
  unfolding read_measurement get_function Manager.query
  failed_measurement message m opened = ground (
    arith,
    (transact-fail_next F default_timeout message Commands.function Commands.function true true none
        none m opened).0,
  )

  measurement_after :
      (message : Text) (m : MockTransport)
      → m.is_open ≡ true
      → read_measurement F
          (mock_transport F)
          default_timeout
          (record m { is_open = false; fail_next = none })
        ≡ read_measurement F (mock_transport F) default_timeout (reconnected m)
  unfolding read_measurement get_function Manager.query
  measurement_after message m opened = ground (
    arith,
    (transact-fail_next F default_timeout message Commands.function Commands.function true true none
        none m opened).0,
    (transact-fail_next F default_timeout message Commands.function Commands.function true true none
        none m opened).1,
  )

  -- A failure on the open line costs one sample: the round that meets it publishes nothing, and the
  -- next round reconnects, in local mode, and publishes a reading of the meter as it was left. It
  -- relies on `float(repr(x))` being `x`.
  pub poll_round-recovers :
      IsPrintable F
      → (message : Text) (now now' : F.Float) (s : Live F MockTransport) → s.device.is_open ≡ true
      → let s' =
          poll_round F
            (mock_transport F)
            default_timeout
            now
            (record s { device = set_fail_next message s.device }) in
        (s'.poller ≡ s.poller)
        × (poll_round F (mock_transport F) default_timeout now' s'
            ≡ sampled (reconnected s.device) now' s)
  unfolding poll_round poll_once
  poll_round-recovers P message now now' s opened = (
    ground (arith, failed_measurement message s.device opened),
    ground (
      arith,
      failed_measurement message s.device opened,
      measurement_after message s.device opened,
      read_measurement-mock F default_timeout P (reconnected s.device)
          (record { open_now = refl; sound = refl }),
    ),
  )
