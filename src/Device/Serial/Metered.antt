-- ===== src/Device/Serial/Metered.antt =====
-- The manager over a serial port at whose other end a meter with a state of its own answers.
use owon_xdm1041_server.Base.{
  ◌≡◌, ◌≢◌, refl, ℕ, Action, true, false, Option, none, some, List, [], ◌∷◌, ◌++◌, ok, Text, strip,
  encode_ascii, decode_ascii, arith, codes, has_text,
}
use owon_xdm1041_server.Base.Ascii.{IsAscii, encode_ascii-IsAscii, decode_ascii-IsAscii}
use owon_xdm1041_server.Device.Manager
use owon_xdm1041_server.Device.Serial.{
  Pyserial, SerialTransport, exchange, transact_blocking, transact, serial_transport,
}
use owon_xdm1041_server.Device.Serial.Responsive.{
  StaysOpen, IsUp, IsLine, has_question-append, line-IsAscii, is_open-IsUp,
}
use owon_xdm1041_server.Device.Serial.Wire.{transact_replies}

-- A line on which each call of the port succeeds, and a meter whose state each line that is written
-- can change, and whose reply to a query is that of its state. What the meter has sent waits in
-- order, and is there at once. Of what it sends after any other command nothing is asked.
pub record IsMeter (P : Pyserial) (port : P.Port) : Type 1 where
  pub Meter : Type 0
  pub meter : P.World → Meter
  pub reply : Meter → List ℕ → List ℕ
  pub after : Meter → List ℕ → Meter
  pub pending : P.World → List (List ℕ)
  pub reset_lem :
      (w : P.World)
      → ((P.reset_input_buffer port w).0 ≡ ok tt)
        × (pending (P.reset_input_buffer port w).1 ≡ [])
        × (meter (P.reset_input_buffer port w).1 ≡ meter w)
  pub write_lem :
      (bytes : List ℕ) (w : P.World)
      → ((P.write port bytes w).0 ≡ ok tt)
        × (meter (P.write port bytes w).1 ≡ after (meter w) bytes)
  pub replied :
      (bytes : List ℕ) (w : P.World)
      → has_text (codes "?") bytes ≡ true
      → pending (P.write port bytes w).1 ≡ pending w ++ (reply (meter w) bytes ∷ [])
  pub flush_lem :
      (w : P.World)
      → ((P.flush port w).0 ≡ ok tt)
        × (pending (P.flush port w).1 ≡ pending w)
        × (meter (P.flush port w).1 ≡ meter w)
  pub timeout_lem :
      (t : ℕ) (w : P.World)
      → ((P.set_timeout port t w).0 ≡ ok tt)
        × (pending (P.set_timeout port t w).1 ≡ pending w)
        × (meter (P.set_timeout port t w).1 ≡ meter w)
  pub readline_lem :
      (line : List ℕ) (rest : List (List ℕ)) (w : P.World)
      → pending w ≡ line ∷ rest
      → ((P.readline port w).0 ≡ ok line)
        × (pending (P.readline port w).1 ≡ rest)
        × (meter (P.readline port w).1 ≡ meter w)

module _ (P : Pyserial) (port : P.Port) (L : IsMeter P port) (O : StaysOpen P port) where
  -- A method that returned this, on a port that is as open as before, and left the meter so.
  abbrev pub Leaves :
      {A : Type 0} → Action (SerialTransport P) A → SerialTransport P → A → L.Meter → Type 0
  Leaves m s a left =
      (v : P.World) × (P.is_open port v ≡ true)
      × (L.meter v ≡ left)
      × (m s ≡ (ok a, record s { world = v }))

  transact-answer :
      (c : Text) (t : ℕ) (s : SerialTransport P) (b : ℕ) (raw : List ℕ)
      → IsUp P port s
      → encode_ascii (c ++ (10 ∷ [])) ≡ some (c ++ (10 ∷ []))
      → has_text (codes "?") (c ++ (10 ∷ [])) ≡ true
      → L.reply (L.meter s.world) (c ++ (10 ∷ [])) ≡ b ∷ raw
      → Leaves
          (transact P c true t)
          s
          (some (strip (decode_ascii (b ∷ raw))))
          (L.after (L.meter s.world) (c ++ (10 ∷ [])))
  transact-answer c t s b raw up e asks r =
      let bytes = c ++ (10 ∷ []) in
      let w1 = (P.reset_input_buffer port s.world).1 in
      let w2 = (P.write port bytes w1).1 in
      let w3 = (P.flush port w2).1 in
      let w4 = (P.set_timeout port t w3).1 in
      let (d1, e1, m1) = L.reset_lem s.world in
      let (d2, m2) = L.write_lem bytes w1 in
      let e2 = L.replied bytes w1 asks in
      let (d3, e3, m3) = L.flush_lem w2 in
      let (d4, e4, m4) = L.timeout_lem t w3 in
      let waits : L.pending w4 ≡ (b ∷ raw) ∷ [] = rw (e4, e3, e2, e1, m1, r) refl in
      let (d5, e5, m5) = L.readline_lem (b ∷ raw) [] w4 waits in
      let o3 = O.flush_open w2 (O.write_open bytes w1 (O.reset_open s.world up.opened)) in
      (
        (P.readline port w4).1,
        O.readline_open w4 (O.timeout_open t w3 o3),
        rw (m5, m4, m3, m2, m1) refl,
        transact_replies P port c t s bytes (b ∷ raw) up.serial e d1 d2 d3 d4 d5,
      )

  transact-line :
      (c : Text) (t : ℕ) (s : SerialTransport P) (raw : List ℕ)
      → IsUp P port s
      → IsAscii c
      → has_text (codes "?") c ≡ true
      → L.reply (L.meter s.world) (c ++ (10 ∷ [])) ≡ raw
      → raw ≢ []
      → Leaves
          (transact P c true t)
          s
          (some (strip (decode_ascii raw)))
          (L.after (L.meter s.world) (c ++ (10 ∷ [])))
  transact-line c t s [] up ascii asks r full = absurd (full refl)
  transact-line c t s (b ∷ raw) up ascii asks r full =
      transact-answer c t s b raw up (encode_ascii-IsAscii (c ++ (10 ∷ [])) (line-IsAscii c ascii))
        (has_question-append c (10 ∷ []) asks) r

  transact-sent :
      (c : Text) (t : ℕ) (s : SerialTransport P)
      → IsUp P port s
      → encode_ascii (c ++ (10 ∷ [])) ≡ some (c ++ (10 ∷ []))
      → Leaves (transact P c false t) s none (L.after (L.meter s.world) (c ++ (10 ∷ [])))
  unfolding transact transact_blocking exchange
  transact-sent c t s up e =
      let bytes = c ++ (10 ∷ []) in
      let w1 = (P.reset_input_buffer port s.world).1 in
      let w2 = (P.write port bytes w1).1 in
      let (d1, e1, m1) = L.reset_lem s.world in
      let (d2, m2) = L.write_lem bytes w1 in
      let (d3, e3, m3) = L.flush_lem w2 in
      let serial = up.serial in
      (
        (P.flush port w2).1,
        O.flush_open w2 (O.write_open bytes w1 (O.reset_open s.world up.opened)),
        rw (m3, m2, m1) refl,
        ground arith,
      )

  -- A query of ASCII text returns the reply of the meter in its state, stripped, whatever waited on
  -- the line before, where the reply is ASCII and not empty.
  pub query-Leaves :
      (default_timeout : ℕ) (c : Text) (t : Option ℕ) (s : SerialTransport P)
      → IsUp P port s
      → IsAscii c
      → has_text (codes "?") c ≡ true
      → IsLine (L.reply (L.meter s.world) (c ++ (10 ∷ [])))
      → Leaves
          (Manager.query (serial_transport P) default_timeout c t)
          s
          (strip (L.reply (L.meter s.world) (c ++ (10 ∷ []))))
          (L.after (L.meter s.world) (c ++ (10 ∷ [])))
  unfolding Manager.query Manager.transact Manager.ensure_open Manager.attempt
  query-Leaves default_timeout c t s up ascii asks (small, full) =
      let raw = L.reply (L.meter s.world) (c ++ (10 ∷ [])) in
      let timeout = Manager.timeout_or_default (serial_transport P) default_timeout t in
      let (v, o, m, e) = transact-line c timeout s raw up ascii asks refl full in
      let connected = is_open-IsUp P port s up in
      let text = decode_ascii-IsAscii raw small in (v, o, m, ground (arith, e, connected, text))

  -- A command of ASCII text is sent.
  pub write-Leaves :
      (default_timeout : ℕ) (c : Text) (t : Option ℕ) (s : SerialTransport P)
      → IsUp P port s
      → IsAscii c
      → Leaves
          (Manager.write (serial_transport P) default_timeout c t)
          s
          tt
          (L.after (L.meter s.world) (c ++ (10 ∷ [])))
  unfolding Manager.write Manager.transact Manager.ensure_open Manager.attempt
  write-Leaves default_timeout c t s up ascii =
      let timeout = Manager.timeout_or_default (serial_transport P) default_timeout t in
      let (v, o, m, e) =
        transact-sent c timeout s up
          (encode_ascii-IsAscii (c ++ (10 ∷ [])) (line-IsAscii c ascii)) in
      let connected = is_open-IsUp P port s up in (v, o, m, ground (arith, e, connected))
