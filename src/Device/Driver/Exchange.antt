-- ===== src/Device/Driver/Exchange.antt =====
-- One query or write of the driver over the mock, and the mock's answer to each command.
use owon_xdm1041_server.Base.{
  ◌≡◌, refl, ℕ, ◌+◌, true, Option, none, some, arith, ok, Text, codes, strip, upper, text_eq,
  starts_with, if◌then◌else◌,
}
use owon_xdm1041_server.Base.Floats.{Floats}
use owon_xdm1041_server.Device.Commands
use owon_xdm1041_server.Device.Commands.{function_value, rate_value}
use owon_xdm1041_server.Device.Manager
use owon_xdm1041_server.Device.Mock.{
  MockTransport, handle, transact, mock_transport, in_quotes, range_display, measured,
}

-- The line is open, and no failure is due.
pub record IsReady (s : MockTransport) : Type 0 where
  pub open_now : s.is_open ≡ true
  pub sound : s.fail_next ≡ none

module _ (F : Floats) (default_timeout : ℕ) where
  pub query-handle :
      (c : Text) (s : MockTransport) (r : Text) (s' : MockTransport)
      → IsReady s
      → handle F (strip c) s ≡ (ok (some r), s')
      → Manager.query (mock_transport F) default_timeout c none s ≡ (ok r, s')
  unfolding Manager.query Manager.transact Manager.ensure_open Manager.attempt transact
  query-handle c s r s' ready e = ground (arith, e)

  pub write-handle :
      (c : Text) (s : MockTransport) (r : Option Text) (s' : MockTransport)
      → IsReady s
      → handle F (strip c) s ≡ (ok r, s')
      → Manager.write (mock_transport F) default_timeout c none s ≡ (ok tt, s')
  unfolding Manager.write Manager.transact Manager.ensure_open Manager.attempt transact
  write-handle c s r s' ready e = ground (arith, e)

module _ (F : Floats) where
  pub handle-identify :
      (s : MockTransport)
      → handle F (strip Commands.identify) s
        ≡ (ok (some (codes "OWON,XDM1041,MOCK0001,V1.2.0,3")), s)
  unfolding handle strip upper text_eq
  handle-identify s = refl

  pub handle-function :
      (s : MockTransport)
      → handle F (strip Commands.function) s
        ≡ (ok (some (in_quotes (function_value s.function))), s)
  unfolding handle strip upper text_eq
  handle-function s = refl

  pub handle-rate_query :
      (s : MockTransport)
      → handle F (strip Commands.rate_query) s ≡ (ok (some (rate_value s.rate)), s)
  unfolding handle strip upper text_eq
  handle-rate_query s = refl

  pub handle-auto_range_query :
      (s : MockTransport)
      → handle F (strip Commands.auto_range_query) s
        ≡ (ok (some (if s.auto_range then codes "1" else codes "0")), s)
  unfolding handle strip upper text_eq starts_with
  handle-auto_range_query s = refl

  pub handle-range_query :
      (s : MockTransport)
      → handle F (strip Commands.range_query) s ≡ (ok (range_display s.function), s)
  unfolding handle strip upper text_eq starts_with
  handle-range_query s = refl

  pub handle-measure :
      (s : MockTransport)
      → handle F (strip Commands.measure) s
        ≡ (ok (some (F.repr (measured F s.function (s.tick + 1)))), record s { tick = s.tick + 1 })
  unfolding handle strip upper text_eq
  handle-measure s = refl
