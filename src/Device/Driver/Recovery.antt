-- ===== src/Device/Driver/Recovery.antt =====
-- A failure on the line costs one transaction: the next one reconnects and goes through.
use owon_xdm1041_server.Base.{
  ◌≡◌, ℕ, Bool, true, false, Option, none, arith, err, device_error, Text,
}
use owon_xdm1041_server.Base.Floats.{Floats}
use owon_xdm1041_server.Device.Manager
use owon_xdm1041_server.Device.Mock.{MockTransport, transact, mock_transport, set_fail_next}
use owon_xdm1041_server.Device.Mock.Lawful.{handle-local}

-- The meter after a reconnect: the line is open, and the front panel is usable.
abbrev pub reconnected : MockTransport → MockTransport
reconnected s = record s { is_open = true; fail_next = none; remote = false }

module _ (F : Floats) (default_timeout : ℕ) where
  -- A transaction on an open mock with a failure due raises `DeviceError`, closes the line and
  -- leaves the meter's settings. The next transaction, whatever it is, does and returns what it
  -- would on a line that is open with the meter in local mode.
  pub transact-fail_next :
      (message : Text) (c c' : Text) (x x' : Bool) (t t' : Option ℕ) (s : MockTransport)
      → s.is_open ≡ true
      → let r =
          Manager.transact (mock_transport F) default_timeout c x t (set_fail_next message s) in
        (r ≡ (err device_error, record s { is_open = false; fail_next = none }))
        × (Manager.transact (mock_transport F) default_timeout c' x' t' r.1
            ≡ Manager.transact (mock_transport F) default_timeout c' x' t' (reconnected s))
  unfolding Manager.transact Manager.ensure_open Manager.attempt Manager.reconnect Manager.connect
      Manager.safe_close transact set_fail_next
  transact-fail_next message c c' x x' t t' s opened =
      (ground arith, ground (arith, handle-local F (record s { is_open = true; fail_next = none })))
