-- ===== src/Device/Transport.antt =====
-- src/owon_xdm1041_server/device/transport.py: the abstract class `Transport`, as an interface.
-- Timeouts are in milliseconds.
use owon_xdm1041_server.Base.{
  ℕ, ◌≡◌, ◌≢◌, Bool, true, false, Option, none, Action, Result, ok, err, transport_error,
  device_error, assertion_error, Text,
}
use owon_xdm1041_server.Device.Commands

pub record Transport : Type 1 where
  pub State : Type 0
  pub is_open : State → Bool
  pub open_line : Action State (Unit {0})
  pub close_line : Action State (Unit {0})
  pub transact : Text → Bool → ℕ → Action State (Option Text)

-- The result is no exception but `TransportError`.
abbrev pub only_transport_error : {A : Type 0} → Result A → Bool
only_transport_error (ok a) = true
only_transport_error (err transport_error) = true
only_transport_error (err e) = false

-- The result is an exception that only the manager raises.
abbrev pub managers_error : {A : Type 0} → Result A → Bool
managers_error (ok a) = false
managers_error (err device_error) = true
managers_error (err assertion_error) = true
managers_error (err e) = false

-- What the methods' documentation promises to the manager.
pub record IsTransport (T : Transport) : Type 0 where
  pub opens : (s : T.State) → (T.open_line s).0 ≡ ok tt → T.is_open (T.open_line s).1 ≡ true
  pub closes : (s : T.State) → T.is_open (T.close_line s).1 ≡ false
  pub answers : (c : Text) (t : ℕ) (s : T.State) → (T.transact c true t s).0 ≢ ok none
  pub open_raises : (s : T.State) → only_transport_error (T.open_line s).0 ≡ true
  pub close_raises : (s : T.State) → only_transport_error (T.close_line s).0 ≡ true
  pub local_raises :
      (t : ℕ) (s : T.State) → only_transport_error (T.transact Commands.local false t s).0 ≡ true
  pub transact_raises :
      (c : Text) (expect_response : Bool) (t : ℕ) (s : T.State)
      → managers_error (T.transact c expect_response t s).0 ≡ false
