-- ===== src/Device/Serial/Wire.antt =====
-- What passes over the serial port in one transaction.
use owon_xdm1041_server.Base.{
  ℕ, ◌≡◌, ◌≢◌, Bool, true, Option, none, some, List, [], ◌∷◌, ◌++◌, arith, Result, ok, err,
  unicode_error, transport_error, Text, encode_ascii, decode_ascii, strip,
}
use owon_xdm1041_server.Device.Manager
use owon_xdm1041_server.Device.Serial.{
  Pyserial, SerialTransport, is_open, exchange, transact_blocking, transact, serial_transport,
}

-- A line that was read and is not empty, as text.
abbrev pub read_text : Result (List ℕ) → Option Text
read_text (ok (b ∷ raw)) = some (strip (decode_ascii (b ∷ raw)))
read_text _ = none

module _ (P : Pyserial) where
  -- A command that cannot be encoded as ASCII raises `UnicodeEncodeError` after the input buffer is
  -- reset, and nothing is written to the port.
  transact_not_ascii :
      (h : P.Port) (c : Text) (x : Bool) (t : ℕ) (s : SerialTransport P)
      → s.serial ≡ some h
      → (P.reset_input_buffer h s.world).0 ≡ ok tt
      → encode_ascii (c ++ (10 ∷ [])) ≡ none
      → transact P c x t s
        ≡ (err unicode_error, record s { world = (P.reset_input_buffer h s.world).1 })
  unfolding transact transact_blocking exchange
  transact_not_ascii h c x t s e r n = ground arith

  -- A command that cannot be encoded as ASCII makes `query`, on an open port whose buffer can be
  -- reset, raise `UnicodeEncodeError`, which is no `DeviceError`; the port is left as it is.
  pub query_not_ascii :
      (default_timeout : ℕ) (h : P.Port) (c : Text) (t : Option ℕ) (s : SerialTransport P)
      → s.serial ≡ some h
      → P.is_open h s.world ≡ true
      → (P.reset_input_buffer h s.world).0 ≡ ok tt
      → encode_ascii (c ++ (10 ∷ [])) ≡ none
      → Manager.query (serial_transport P) default_timeout c t s
        ≡ (err unicode_error, record s { world = (P.reset_input_buffer h s.world).1 })
  unfolding Manager.query Manager.transact Manager.ensure_open Manager.attempt is_open
  query_not_ascii default_timeout h c t s e o r n = ground (
    arith,
    transact_not_ascii h c true (Manager.timeout_or_default (serial_transport P) default_timeout t)
        s e r n,
  )

  -- The port after `write`, `flush` and the setting of the timeout.
  abbrev pub written : P.Port → List ℕ → ℕ → P.World → P.World
  written h bytes t w = (P.set_timeout h t (P.flush h (P.write h bytes w).1).1).1

  -- On an open port, where a query returns and its command has these ASCII bytes with the line
  -- feed, the transaction has cleared the input, written the bytes, flushed, set the timeout and
  -- read one line, in this order, and done nothing else to the port. What it returns is that line,
  -- which was read and is not empty, decoded and stripped.
  transact_returns :
      (h : P.Port) (c : Text) (t : ℕ) (s : SerialTransport P) (bytes : List ℕ) (r : Option Text)
      → s.serial ≡ some h
      → encode_ascii (c ++ (10 ∷ [])) ≡ some bytes
      → (transact P c true t s).0 ≡ ok r
      → let w = written h bytes t (P.reset_input_buffer h s.world).1 in
        ((transact P c true t s).1 ≡ record s { world = (P.readline h w).1 })
        × (r ≡ read_text (P.readline h w).0)
        × (r ≢ none)
  unfolding transact transact_blocking exchange
  transact_returns h c t s bytes r e b d = (ground arith, ground arith, ground arith)

  -- What a query makes of the line that was read.
  abbrev pub reply_to : List ℕ → Result (Option Text)
  reply_to [] = err transport_error
  reply_to (b ∷ raw) = ok (some (strip (decode_ascii (b ∷ raw))))

  -- On an open port whose methods return: a query whose command has these ASCII bytes with the line
  -- feed clears the input, writes the bytes, flushes, sets the timeout and reads one line; where
  -- the time ran out with nothing read it raises `TransportError`, and else it returns the line,
  -- decoded and stripped.
  pub transact_replies :
      (h : P.Port) (c : Text) (t : ℕ) (s : SerialTransport P) (bytes raw : List ℕ)
      → s.serial ≡ some h
      → encode_ascii (c ++ (10 ∷ [])) ≡ some bytes
      → let w = (P.reset_input_buffer h s.world).1 in
        let w' = (P.write h bytes w).1 in
        let v = written h bytes t w in
        (P.reset_input_buffer h s.world).0 ≡ ok tt
        → (P.write h bytes w).0 ≡ ok tt
        → (P.flush h w').0 ≡ ok tt
        → (P.set_timeout h t (P.flush h w').1).0 ≡ ok tt
        → (P.readline h v).0 ≡ ok raw
        → transact P c true t s ≡ (reply_to raw, record s { world = (P.readline h v).1 })
  unfolding transact transact_blocking exchange
  transact_replies h c t s bytes [] e b r w f u l = ground arith
  transact_replies h c t s bytes (x ∷ raw) e b r w f u l = ground arith
