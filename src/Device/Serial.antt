-- ===== src/Device/Serial.antt =====
-- src/owon_xdm1041_server/device/transport.py: `SerialTransport`, over pyserial.
pub mod Raises
pub mod Lawful
pub mod Ports
pub mod Wire
pub mod Threads
pub mod Echo
pub mod Responsive
pub mod Metered
pub mod Talking
pub mod Numbered
mod Tests
use owon_xdm1041_server.Base.{
  ℕ, ◌≡◌, Bool, true, false, Option, none, some, List, [], ◌∷◌, ◌++◌, if◌then◌else◌, Action, Error,
  Result, ok, err, transport_error, unicode_error, serial_error, pure, raise, lift, ◌>>=◌, ◌>>◌,
  try_except, Text, strip, encode_ascii, decode_ascii,
}
use owon_xdm1041_server.Device.Transport.{Transport}

-- What the transport uses of pyserial: a port is a handle, and its methods act on the world.
-- `SerialException` is an `OSError`, and both are `serial_error`.
pub record Pyserial : Type 1 where
  pub World : Type 0
  pub Port : Type 0
  pub construct : Text → ℕ → Action World Port
  pub is_open : Port → World → Bool
  pub close : Port → Action World (Unit {0})
  pub reset_input_buffer : Port → Action World (Unit {0})
  pub write : Port → List ℕ → Action World (Unit {0})
  pub flush : Port → Action World (Unit {0})
  pub set_timeout : Port → ℕ → Action World (Unit {0})
  pub readline : Port → Action World (List ℕ)

-- The fields of the object, beside the world.
pub record SerialTransport (P : Pyserial) : Type 0 where
  pub port : Text
  pub baud_rate : ℕ
  pub serial : Option P.Port
  pub world : P.World

-- `except (serial.SerialException, OSError): raise TransportError`
abbrev pub on_serial_error : {S A : Type 0} → Action S A → Error → Action S A
on_serial_error h serial_error = h
on_serial_error h e = raise e

-- `bytes = text.encode("ascii")`
abbrev pub ascii_bytes : Option (List ℕ) → Result (List ℕ)
ascii_bytes none = err unicode_error
ascii_bytes (some bytes) = ok bytes

-- The answer in a line that was read; nothing was read where the time ran out.
abbrev pub answer_in : {S : Type 0} → List ℕ → Action S (Option Text)
answer_in [] = raise transport_error
answer_in (b ∷ raw) = pure (some (strip (decode_ascii (b ∷ raw))))

module _ (P : Pyserial) where
  -- A method of the port.
  abbrev pub on_world : {A : Type 0} → Action P.World A → Action (SerialTransport P) A
  on_world m s = let r = m s.world in (r.0, record s { world = r.1 })

  unfoldable pub is_open : SerialTransport P → Bool
  is_open s = elim s.serial [ none ↦ false | some port ↦ P.is_open port s.world ]

  unfoldable pub open_line : Action (SerialTransport P) (Unit {0})
  open_line s =
      if is_open s
      then pure tt s
      else try_except
          (do
            port ← on_world (P.construct s.port s.baud_rate)
            λ s. (ok tt, record s { serial = some port }))
          (on_serial_error (raise transport_error)) s

  -- `if ser is not None and ser.is_open: ser.close()`
  abbrev pub close_port : Option P.Port → Action (SerialTransport P) (Unit {0})
  close_port none s = pure tt s
  close_port (some port) s = if P.is_open port s.world then on_world (P.close port) s else pure tt s

  unfoldable pub close_line : Action (SerialTransport P) (Unit {0})
  close_line s = close_port s.serial (record s { serial = none })

  -- The `try` block of `_transact_blocking`; the result is the line that was read, if one was asked
  -- for.
  unfoldable pub exchange : P.Port → Text → Bool → ℕ → Action (SerialTransport P) (Option (List ℕ))
  exchange port command expect_response timeout = do
    on_world (P.reset_input_buffer port)
    bytes ← lift (ascii_bytes (encode_ascii (command ++ (10 ∷ []))))
    on_world (P.write port bytes)
    on_world (P.flush port)
    if expect_response
        then (do
          on_world (P.set_timeout port timeout)
          raw ← on_world (P.readline port)
          pure (some raw))
        else pure none

  -- What `_transact_blocking` returns or raises after its `try` block.
  abbrev pub answer : Option (List ℕ) → Action (SerialTransport P) (Option Text)
  answer none = pure none
  answer (some raw) = answer_in raw

  -- `_transact_blocking`
  unfoldable pub transact_blocking :
      P.Port → Text → Bool → ℕ → Action (SerialTransport P) (Option Text)
  transact_blocking port command expect_response timeout = do
    read ←
        try_except (exchange port command expect_response timeout)
          (on_serial_error (raise transport_error))
    answer read

  -- `transact`, by whether there is a port.
  abbrev pub transact_on :
      Option P.Port → Text → Bool → ℕ → Action (SerialTransport P) (Option Text)
  transact_on none command expect_response timeout = raise transport_error
  transact_on (some port) command expect_response timeout =
      transact_blocking port command expect_response timeout

  unfoldable pub transact : Text → Bool → ℕ → Action (SerialTransport P) (Option Text)
  transact command expect_response timeout s =
      transact_on s.serial command expect_response timeout s

  abbrev pub serial_transport : Transport
  serial_transport = record {
    State = SerialTransport P;
    is_open = is_open;
    open_line = open_line;
    close_line = close_line;
    transact = transact;
  }
