-- ===== src/Device/Manager.antt =====
-- src/owon_xdm1041_server/device/manager.py: the owner of the meter's connection. The lock makes
-- each method one uninterrupted step on the transport, so a method is an action on its state.
pub mod Failures
pub mod Greeting
pub mod Steps
pub mod Tasks
mod Tests
use owon_xdm1041_server.Base.{
  ℕ, not, Bool, true, false, Option, none, some, if◌then◌else◌, Action, Error, transport_error,
  device_error, assertion_error, pure, raise, ◌>>=◌, ◌>>◌, try_except, Text,
}
use owon_xdm1041_server.Device.Commands
use owon_xdm1041_server.Device.Transport.{Transport}

-- `except TransportError: h`
abbrev pub on_transport_error : {S A : Type 0} → Action S A → Error → Action S A
on_transport_error h transport_error = h
on_transport_error h e = raise e

-- The assertion in `query`.
abbrev pub assert_some : {S : Type 0} → Option Text → Action S Text
assert_some none = raise assertion_error
assert_some (some r) = pure r

module _ (T : Transport) (default_timeout : ℕ) where
  -- `_connect`
  unfoldable pub connect : Action T.State (Unit {0})
  connect = do T.open_line; T.transact Commands.local false default_timeout; pure tt

  -- `_safe_close`
  unfoldable pub safe_close : Action T.State (Unit {0})
  safe_close = try_except T.close_line (on_transport_error (pure tt))

  -- `_reconnect`
  unfoldable pub reconnect : Action T.State (Unit {0})
  reconnect = try_except connect (on_transport_error (do safe_close; raise device_error))

  -- The transaction itself, once the line is open.
  unfoldable pub attempt : Text → Bool → ℕ → Action T.State (Option Text)
  attempt command expect_response timeout =
      try_except (T.transact command expect_response timeout)
        (on_transport_error (do safe_close; raise device_error))

  abbrev pub timeout_or_default : Option ℕ → ℕ
  timeout_or_default none = default_timeout
  timeout_or_default (some t) = t

  -- `if not self._transport.is_open: await self._reconnect()`
  unfoldable pub ensure_open : Action T.State (Unit {0})
  ensure_open s = if not (T.is_open s) then reconnect s else pure tt s

  -- `_transact`
  unfoldable pub transact : Text → Bool → Option ℕ → Action T.State (Option Text)
  transact command expect_response timeout = do
    ensure_open
    attempt command expect_response (timeout_or_default timeout)

  unfoldable pub start : Action T.State (Unit {0})
  start = connect

  unfoldable pub stop : Action T.State (Unit {0})
  stop = T.close_line

  unfoldable pub is_connected : T.State → Bool
  is_connected s = T.is_open s

  unfoldable pub query : Text → Option ℕ → Action T.State Text
  query command timeout = do result ← transact command true timeout; assert_some result

  unfoldable pub write : Text → Option ℕ → Action T.State (Unit {0})
  write command timeout = do transact command false timeout; pure tt
