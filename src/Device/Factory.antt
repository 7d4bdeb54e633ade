-- ===== src/Device/Factory.antt =====
-- src/owon_xdm1041_server/device/factory.py: the device stack that the settings ask for.
use owon_xdm1041_server.Base.{ℕ, Bool, true, false, none}
use owon_xdm1041_server.Base.Floats.{Floats}
use owon_xdm1041_server.Device.Mock.{new_mock, mock_transport}
use owon_xdm1041_server.Device.Serial.{Pyserial, SerialTransport, serial_transport}
use owon_xdm1041_server.Device.Transport.{Transport}
use owon_xdm1041_server.Settings.{Settings}

-- A transport with the state in which it was made.
abbrev pub Made : Type 1
Made = (T : Transport) × T.State

-- What a manager is made of. The driver is nothing but its manager.
pub record Stack : Type 1 where
  pub transport : Made
  pub default_timeout : ℕ

module _ (F : Floats) (P : Pyserial) (world : P.World) where
  -- `SerialTransport(settings.serial_port, settings.baud_rate)`
  abbrev pub new_serial : Settings → SerialTransport P
  new_serial settings = record {
    port = settings.serial_port;
    baud_rate = settings.baud_rate;
    serial = none;
    world = world;
  }

  abbrev pub transport_for : Bool → Settings → Made
  transport_for true settings = (mock_transport F, new_mock)
  transport_for false settings = (serial_transport P, new_serial settings)

  -- `build_transport`
  unfoldable pub build_transport : Settings → Made
  build_transport settings = transport_for settings.use_mock settings

  -- `build_driver`
  unfoldable pub build_driver : Settings → Stack
  unfolding build_transport
  build_driver settings = record {
    transport = build_transport settings;
    default_timeout = settings.serial_timeout;
  }
