-- ===== src/Device/Manager/Failures.antt =====
-- What a transaction does on each outcome of the transport.
use owon_xdm1041_server.Base.{
  ℕ, ◌≡◌, ◌≢◌, Bool, true, false, Option, none, arith, Result, ok, err, transport_error,
  device_error, assertion_error, Text,
}
use owon_xdm1041_server.Device.Commands
use owon_xdm1041_server.Device.Transport.{Transport, IsTransport, only_transport_error}
use owon_xdm1041_server.Device.Manager.{
  connect, safe_close, reconnect, attempt, ensure_open, timeout_or_default, transact, start, query,
  write,
}

module _ (T : Transport) (default_timeout : ℕ) where
  -- No `TransportError` reaches a caller of `query` or `write`.
  reconnect-ne-transport_error :
      (s : T.State) → (reconnect T default_timeout s).0 ≢ err transport_error
  unfolding reconnect safe_close
  reconnect-ne-transport_error s = ground arith

  ensure_open-ne-transport_error :
      (s : T.State) → (ensure_open T default_timeout s).0 ≢ err transport_error
  unfolding ensure_open
  ensure_open-ne-transport_error s = ground (arith, reconnect-ne-transport_error s)

  attempt-ne-transport_error :
      (c : Text) (e : Bool) (t : ℕ) (s : T.State)
      → (attempt T default_timeout c e t s).0 ≢ err transport_error
  unfolding attempt safe_close
  attempt-ne-transport_error c e t s = ground arith

  transact-ne-transport_error :
      (c : Text) (e : Bool) (t : Option ℕ) (s : T.State)
      → (transact T default_timeout c e t s).0 ≢ err transport_error
  unfolding transact
  transact-ne-transport_error c e t s = ground (
    arith,
    ensure_open-ne-transport_error s,
    attempt-ne-transport_error c e (timeout_or_default T default_timeout t)
        (ensure_open T default_timeout s).1,
  )

-- The result is no exception but `DeviceError`.
abbrev only_device_error : {A : Type 0} → Result A → Bool
only_device_error (ok a) = true
only_device_error (err device_error) = true
only_device_error (err e) = false

module _ (T : Transport) (L : IsTransport T) (default_timeout : ℕ) where
  safe_close_closes : (s : T.State) → T.is_open (safe_close T default_timeout s).1 ≡ false
  unfolding safe_close
  safe_close_closes s = ground (arith, L.closes s)

  safe_close-ok : (s : T.State) → (safe_close T default_timeout s).0 ≡ ok tt
  unfolding safe_close
  safe_close-ok s = ground (arith, L.close_raises s)

  connect_raises : (s : T.State) → only_transport_error (connect T default_timeout s).0 ≡ true
  unfolding connect
  connect_raises s =
      ground (arith, L.open_raises s, L.local_raises default_timeout (T.open_line s).1)

  reconnect_raises : (s : T.State) → only_device_error (reconnect T default_timeout s).0 ≡ true
  unfolding reconnect
  reconnect_raises s =
      ground (arith, connect_raises s, safe_close-ok (connect T default_timeout s).1)

  -- A connection that could not be made is closed.
  reconnect-device_error :
      (s : T.State)
      → (reconnect T default_timeout s).0 ≡ err device_error
      → T.is_open (reconnect T default_timeout s).1 ≡ false
  unfolding reconnect
  reconnect-device_error s h =
      ground (arith, connect_raises s, safe_close_closes (connect T default_timeout s).1)

  attempt-device_error :
      (c : Text) (x : Bool) (t : ℕ) (s : T.State)
      → (attempt T default_timeout c x t s).0 ≡ err device_error
      → T.is_open (attempt T default_timeout c x t s).1 ≡ false
  unfolding attempt
  attempt-device_error c x t s h =
      ground (arith, L.transact_raises c x t s, safe_close_closes (T.transact c x t s).1)

  attempt-ne-assertion_error :
      (c : Text) (x : Bool) (t : ℕ) (s : T.State)
      → (attempt T default_timeout c x t s).0 ≢ err assertion_error
  unfolding attempt
  attempt-ne-assertion_error c x t s =
      ground (arith, L.transact_raises c x t s, safe_close-ok (T.transact c x t s).1)

  attempt_answers :
      (c : Text) (t : ℕ) (s : T.State) → (attempt T default_timeout c true t s).0 ≢ ok none
  unfolding attempt
  attempt_answers c t s = ground (arith, L.answers c t s)

  -- Over a transport that keeps its promises, a transaction that raises `DeviceError` leaves the
  -- connection closed, whether it failed to reconnect or on the line, so that the next one
  -- reconnects from scratch.
  pub transact-device_error :
      (c : Text) (x : Bool) (t : Option ℕ) (s : T.State)
      → (transact T default_timeout c x t s).0 ≡ err device_error
      → T.is_open (transact T default_timeout c x t s).1 ≡ false
  unfolding transact ensure_open
  transact-device_error c x t s h = ground (
    arith,
    reconnect-device_error s,
    attempt-device_error c x (timeout_or_default T default_timeout t) s,
    attempt-device_error c x (timeout_or_default T default_timeout t)
        (reconnect T default_timeout s).1,
  )

  -- `query` never fails by its assertion: a transaction that returns has an answer.
  query-ne-assertion_error :
      (c : Text) (t : Option ℕ) (s : T.State)
      → (query T default_timeout c t s).0 ≢ err assertion_error
  unfolding query transact ensure_open
  query-ne-assertion_error c t s = ground (
    arith,
    reconnect_raises s,
    attempt-ne-assertion_error c true (timeout_or_default T default_timeout t) s,
    attempt-ne-assertion_error c true (timeout_or_default T default_timeout t)
        (reconnect T default_timeout s).1,
    attempt_answers c (timeout_or_default T default_timeout t) s,
    attempt_answers c (timeout_or_default T default_timeout t) (reconnect T default_timeout s).1,
  )

  -- Over a transport that keeps its promises, `query` raises neither `TransportError` nor
  -- `AssertionError`, and `write` no `TransportError`.
  pub query_errors :
      (c : Text) (t : Option ℕ) (s : T.State)
      → ((query T default_timeout c t s).0 ≢ err transport_error)
        × ((query T default_timeout c t s).0 ≢ err assertion_error)
        × ((write T default_timeout c t s).0 ≢ err transport_error)
  query_errors c t s = (
    unfold query in ground (arith, transact-ne-transport_error T default_timeout c true t s),
    query-ne-assertion_error c t s,
    unfold write in ground (arith, transact-ne-transport_error T default_timeout c false t s),
  )

module _ (T : Transport) (default_timeout : ℕ) where
  -- Where the line opens and SYST:LOC then fails with the line still open, `start` raises and
  -- leaves it open, and the next transaction sends its command at once, with no further SYST:LOC.
  pub start_fails_open :
      (s : T.State) (c : Text) (x : Bool) (t : Option ℕ)
      → (T.open_line s).0 ≡ ok tt
      → (T.transact Commands.local false default_timeout (T.open_line s).1).0 ≡ err transport_error
      → T.is_open (T.transact Commands.local false default_timeout (T.open_line s).1).1 ≡ true
      → let s' = (start T default_timeout s).1 in
        ((start T default_timeout s).0 ≡ err transport_error)
        × (T.is_open s' ≡ true)
        × (transact T default_timeout c x t s'
            ≡ attempt T default_timeout c x (timeout_or_default T default_timeout t) s')
  unfolding start connect transact ensure_open
  start_fails_open s c x t opened failed still = (ground arith, ground arith, ground arith)
