-- ===== src/Device/Serial/Lawful.antt =====
-- The serial transport keeps the promises of `Transport`, as far as pyserial keeps its own.
use owon_xdm1041_server.Base.{
  ℕ, ◌≡◌, ◌≢◌, refl, Bool, true, false, Option, none, some, List, [], ◌∷◌, ◌++◌, arith, Action,
  Error, Result, raise, try_except, pure, if◌then◌else◌, ◌>>=◌, ◌>>◌, ok, err, serial_error,
  transport_error, Text, encode_ascii,
}
use owon_xdm1041_server.Device.Commands
use owon_xdm1041_server.Device.Serial.{
  Pyserial, SerialTransport, is_open, open_line, close_line, close_port, on_world, ascii_bytes,
  answer, exchange, on_serial_error, transact_blocking, transact_on, transact, serial_transport,
}
use owon_xdm1041_server.Device.Serial.Raises.{
  within, Within, bind-Within, is_serial, is_serial_or_unicode, is_transport,
  is_transport_or_unicode, only_transport, no_managers, tried_any, tried_serial,
}
use owon_xdm1041_server.Device.Transport.{IsTransport, only_transport_error}

-- The result is no exception but `SerialException` or another `OSError`.
abbrev pub only_serial_error : {A : Type 0} → Result A → Bool
only_serial_error (ok a) = true
only_serial_error (err serial_error) = true
only_serial_error (err e) = false

-- A port that was constructed is open.
abbrev pub constructed_open : (P : Pyserial) → Result P.Port × P.World → Bool
constructed_open P (ok h, w) = P.is_open h w
constructed_open P (err e, w) = true

-- What pyserial documents, for the ports and baud rates that it takes: a port is open once it is
-- constructed, closing it returns, and its methods fail by `SerialException` or `OSError` only. For
-- a rate that is out of range it documents `ValueError`, which `open` does not catch: it has no
-- place in the promises of `Transport`, and is left out here.
pub record IsPyserial (P : Pyserial) : Type 0 where
  pub constructed :
      (port : Text) (baud_rate : ℕ) (w : P.World)
      → constructed_open P (P.construct port baud_rate w) ≡ true
  pub construct_raises :
      (port : Text) (baud_rate : ℕ) (w : P.World)
      → only_serial_error (P.construct port baud_rate w).0 ≡ true
  pub close_returns : (h : P.Port) (w : P.World) → (P.close h w).0 ≡ ok tt
  pub reset_raises :
      (h : P.Port) (w : P.World) → only_serial_error (P.reset_input_buffer h w).0 ≡ true
  pub write_raises :
      (h : P.Port) (bytes : List ℕ) (w : P.World) → only_serial_error (P.write h bytes w).0 ≡ true
  pub flush_raises : (h : P.Port) (w : P.World) → only_serial_error (P.flush h w).0 ≡ true
  pub timeout_raises :
      (h : P.Port) (t : ℕ) (w : P.World) → only_serial_error (P.set_timeout h t w).0 ≡ true
  pub readline_raises : (h : P.Port) (w : P.World) → only_serial_error (P.readline h w).0 ≡ true

module _ (P : Pyserial) (L : IsPyserial P) where
  opens : (s : SerialTransport P) → (open_line P s).0 ≡ ok tt → is_open P (open_line P s).1 ≡ true
  unfolding open_line is_open
  opens s h = ground (
    arith,
    L.constructed s.port s.baud_rate s.world,
    L.construct_raises s.port s.baud_rate s.world,
  )

  open_raises : (s : SerialTransport P) → only_transport_error (open_line P s).0 ≡ true
  unfolding open_line
  open_raises s = ground (arith, L.construct_raises s.port s.baud_rate s.world)

  closed_port :
      (o : Option P.Port) (s : SerialTransport P) → only_transport_error (close_port P o s).0 ≡ true
  closed_port none s = refl
  closed_port (some h) s = ground (arith, L.close_returns h s.world)

  close_port-ok : (o : Option P.Port) (s : SerialTransport P) → (close_port P o s).0 ≡ ok tt
  close_port-ok none s = refl
  close_port-ok (some h) s = ground (arith, L.close_returns h s.world)

  close_line-ok : (s : SerialTransport P) → (close_line P s).0 ≡ ok tt
  unfolding close_line
  close_line-ok s = close_port-ok s.serial (record s { serial = none })

  closes : (s : SerialTransport P) → is_open P (close_line P s).1 ≡ false
  unfolding close_line is_open
  closes s = ground arith

  close_raises : (s : SerialTransport P) → only_transport_error (close_line P s).0 ≡ true
  unfolding close_line
  close_raises s = closed_port s.serial (record s { serial = none })

  module _ (test : Error → Bool) (passes : test serial_error ≡ true) where
    world-Within :
        {A : Type 0} (m : Action P.World A)
        → ((w : P.World) → only_serial_error (m w).0 ≡ true)
        → Within test (on_world P m)
    world-Within m h s = ground (arith, h s.world)

    asked-Within :
        (h : P.Port) (t : ℕ) (x : Bool)
        → Within test (
            if x
            then (do
              on_world P (P.set_timeout h t)
              raw ← on_world P (P.readline h)
              pure (some raw))
            else pure none)
    asked-Within h t true =
        bind-Within test _ _ (world-Within (P.set_timeout h t) (L.timeout_raises h t)) λ a.
          bind-Within test _ _ (world-Within (P.readline h) (L.readline_raises h)) λ raw s. refl
    asked-Within h t false = λ s. refl

    exchange-Within :
        (h : P.Port) (c : Text) (x : Bool) (t : ℕ)
        → within test (ascii_bytes (encode_ascii (c ++ (10 ∷ [])))) ≡ true
        → Within test (exchange P h c x t)
    unfolding exchange
    exchange-Within h c x t e =
        bind-Within test _ _ (world-Within (P.reset_input_buffer h) (L.reset_raises h)) λ a.
          bind-Within test _ _ (λ s. e)
            λ bytes.
              bind-Within test _ _ (world-Within (P.write h bytes) (L.write_raises h bytes)) λ b.
                bind-Within test _ _ (world-Within (P.flush h) (L.flush_raises h))
                  λ d. asked-Within h t x

  exchange_raises :
      (h : P.Port) (c : Text) (x : Bool) (t : ℕ) (s : SerialTransport P)
      → within is_serial_or_unicode (exchange P h c x t s).0 ≡ true
  exchange_raises h c x t =
      exchange-Within is_serial_or_unicode refl h c x t (encoding (encode_ascii (c ++ (10 ∷ []))))
    where
      encoding : (o : Option (List ℕ)) → within is_serial_or_unicode (ascii_bytes o) ≡ true
      encoding none = refl
      encoding (some bytes) = refl

  exchange-local_raises :
      (h : P.Port) (t : ℕ) (s : SerialTransport P)
      → within is_serial (exchange P h Commands.local false t s).0 ≡ true
  unfolding encode_ascii
  exchange-local_raises h t = exchange-Within is_serial refl h Commands.local false t refl

  answered :
      (test : Error → Bool) (r : Option (List ℕ))
      → test transport_error ≡ true
      → Within test (answer P r)
  answered test none h s = refl
  answered test (some []) h s = h
  answered test (some (b ∷ raw)) h s = refl

  transact_on_raises :
      (o : Option P.Port) (c : Text) (x : Bool) (t : ℕ) (s : SerialTransport P)
      → within is_transport_or_unicode (transact_on P o c x t s).0 ≡ true
  unfolding transact_blocking
  transact_on_raises none c x t s = refl
  transact_on_raises (some h) c x t s =
      bind-Within is_transport_or_unicode
        (try_except (exchange P h c x t) (on_serial_error (raise transport_error))) (answer P)
        (λ u.
          tried_any (exchange P h c x t u).0 (exchange P h c x t u).1 (exchange_raises h c x t u))
        (λ r. answered is_transport_or_unicode r refl) s

  local_on_raises :
      (o : Option P.Port) (t : ℕ) (s : SerialTransport P)
      → within is_transport (transact_on P o Commands.local false t s).0 ≡ true
  unfolding transact_blocking
  local_on_raises none t s = refl
  local_on_raises (some h) t s =
      bind-Within is_transport
        (try_except (exchange P h Commands.local false t) (on_serial_error (raise transport_error)))
        (answer P)
        (λ u.
          tried_serial (exchange P h Commands.local false t u).0
            (exchange P h Commands.local false t u).1 (exchange-local_raises h t u))
        (λ r. answered is_transport r refl) s

  blocking_answers :
      (h : P.Port) (c : Text) (t : ℕ) (s : SerialTransport P)
      → (transact_blocking P h c true t s).0 ≢ ok none
  unfolding transact_blocking exchange
  blocking_answers h c t s = ground arith

  transact_answers :
      (o : Option P.Port) (c : Text) (t : ℕ) (s : SerialTransport P)
      → (transact_on P o c true t s).0 ≢ ok none
  transact_answers none c t s = ground arith
  transact_answers (some h) c t s = blocking_answers h c t s

  -- Over a pyserial that takes the baud rate, the serial transport keeps every promise of
  -- `Transport`: it is open after `open`, closed after `close` even where the port was lost,
  -- answers each query that it returns from, and turns the failures of the port into
  -- `TransportError`.
  serial_transport-IsTransport : IsTransport (serial_transport P)
  unfolding transact
  serial_transport-IsTransport = record {
    opens = opens;
    closes = closes;
    answers = λ c t s. transact_answers s.serial c t s;
    open_raises = open_raises;
    close_raises = close_raises;
    local_raises = λ t s.
        only_transport (transact P Commands.local false t s).0 (local_on_raises s.serial t s);
    transact_raises =
        λ c x t s. no_managers (transact P c x t s).0 (transact_on_raises s.serial c x t s);
  }
