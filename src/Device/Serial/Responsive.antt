-- ===== src/Device/Serial/Responsive.antt =====
-- The manager over a serial port at whose other end the meter answers.
use owon_xdm1041_server.Base.{
  ◌≡◌, ◌≢◌, Action, refl, ℕ, ◌<◌, true, Option, some, List, [], ◌∷◌, ◌++◌, ok, All-append, Text,
  strip, encode_ascii, decode_ascii, arith, codes, has_text, starts_with,
}
use owon_xdm1041_server.Base.Ascii.{IsAscii, encode_ascii-IsAscii}
use owon_xdm1041_server.Device.Manager
use owon_xdm1041_server.Device.Serial.{
  Pyserial, SerialTransport, is_open, transact, serial_transport,
}
use owon_xdm1041_server.Device.Serial.Threads.Overlap.{IsResponsive}
use owon_xdm1041_server.Device.Serial.Wire.{transact_replies}

-- The calls of one transaction leave the port open.
pub record StaysOpen (P : Pyserial) (port : P.Port) : Type 0 where
  pub reset_open :
      (w : P.World)
      → P.is_open port w ≡ true
      → P.is_open port (P.reset_input_buffer port w).1 ≡ true
  pub write_open :
      (bytes : List ℕ) (w : P.World)
      → P.is_open port w ≡ true
      → P.is_open port (P.write port bytes w).1 ≡ true
  pub flush_open :
      (w : P.World) → P.is_open port w ≡ true → P.is_open port (P.flush port w).1 ≡ true
  pub timeout_open :
      (t : ℕ) (w : P.World)
      → P.is_open port w ≡ true
      → P.is_open port (P.set_timeout port t w).1 ≡ true
  pub readline_open :
      (w : P.World) → P.is_open port w ≡ true → P.is_open port (P.readline port w).1 ≡ true

-- ASCII bytes, and at least one.
abbrev pub IsLine : List ℕ → Type 0
IsLine bytes = IsAscii bytes × (bytes ≢ [])

-- The transport has this port, which is open.
pub record IsUp (P : Pyserial) (port : P.Port) (s : SerialTransport P) : Type 0 where
  pub serial : s.serial ≡ some port
  pub opened : P.is_open port s.world ≡ true

pub has_question-append :
    (c t : Text) → has_text (codes "?") c ≡ true → has_text (codes "?") (c ++ t) ≡ true
unfolding has_text starts_with
has_question-append [] t h = absurd cc
has_question-append (d ∷ c) t h = ground (arith, has_question-append c t)

pub line-IsAscii : (c : Text) → IsAscii c → IsAscii (c ++ (10 ∷ []))
line-IsAscii c ascii = All-append (λ b. b < 128) c (10 ∷ []) ascii (omega arith, tt)

pub is_open-IsUp :
    (P : Pyserial) (port : P.Port) (s : SerialTransport P) → IsUp P port s → is_open P s ≡ true
unfolding is_open
is_open-IsUp P port s up = rw (up.serial, up.opened) refl

module _ (P : Pyserial) (port : P.Port) (L : IsResponsive P port) (O : StaysOpen P port) where
  -- A method that returned this, on a port that is as open as before.
  abbrev pub Returns : {A : Type 0} → Action (SerialTransport P) A → SerialTransport P → A → Type 0
  Returns m s a = (v : P.World) × (P.is_open port v ≡ true) × (m s ≡ (ok a, record s { world = v }))

  transact-answer :
      (c : Text) (t : ℕ) (s : SerialTransport P) (b : ℕ) (raw : List ℕ)
      → IsUp P port s
      → encode_ascii (c ++ (10 ∷ [])) ≡ some (c ++ (10 ∷ []))
      → has_text (codes "?") (c ++ (10 ∷ [])) ≡ true
      → L.reply (c ++ (10 ∷ [])) ≡ b ∷ raw
      → Returns (transact P c true t) s (some (strip (decode_ascii (b ∷ raw))))
  transact-answer c t s b raw up e asks r =
      let bytes = c ++ (10 ∷ []) in
      let w1 = (P.reset_input_buffer port s.world).1 in
      let w2 = (P.write port bytes w1).1 in
      let w3 = (P.flush port w2).1 in
      let w4 = (P.set_timeout port t w3).1 in
      let (d1, e1) = L.reset_lem s.world in
      let d2 = L.written bytes w1 in
      let e2 = L.replied bytes w1 asks in
      let (d3, e3) = L.flush_lem w2 in
      let (d4, e4) = L.timeout_lem t w3 in
      let waits : L.pending w4 ≡ (b ∷ raw) ∷ [] = rw (e4, e3, e2, e1, r) refl in
      let (d5, e5) = L.readline_some (b ∷ raw) [] w4 waits in
      let o3 = O.flush_open w2 (O.write_open bytes w1 (O.reset_open s.world up.opened)) in
      (
        (P.readline port w4).1,
        O.readline_open w4 (O.timeout_open t w3 o3),
        transact_replies P port c t s bytes (b ∷ raw) up.serial e d1 d2 d3 d4 d5,
      )

  transact-line :
      (c : Text) (t : ℕ) (s : SerialTransport P) (raw : List ℕ)
      → IsUp P port s
      → IsAscii c
      → has_text (codes "?") c ≡ true
      → L.reply (c ++ (10 ∷ [])) ≡ raw
      → raw ≢ []
      → Returns (transact P c true t) s (some (strip (decode_ascii raw)))
  transact-line c t s [] up ascii asks r full = absurd (full refl)
  transact-line c t s (b ∷ raw) up ascii asks r full =
      transact-answer c t s b raw up (encode_ascii-IsAscii (c ++ (10 ∷ [])) (line-IsAscii c ascii))
        (has_question-append c (10 ∷ []) asks) r

  -- A query of ASCII text returns what the meter replies to it, decoded and stripped, whatever
  -- waited on the line before.
  pub query-decoded :
      (default_timeout : ℕ) (c : Text) (t : Option ℕ) (s : SerialTransport P)
      → IsUp P port s
      → IsAscii c
      → has_text (codes "?") c ≡ true
      → L.reply (c ++ (10 ∷ [])) ≢ []
      → Returns
          (Manager.query (serial_transport P) default_timeout c t)
          s
          (strip (decode_ascii (L.reply (c ++ (10 ∷ [])))))
  unfolding Manager.query Manager.transact Manager.ensure_open Manager.attempt
  query-decoded default_timeout c t s up ascii asks full =
      let timeout = Manager.timeout_or_default (serial_transport P) default_timeout t in
      let (v, o, e) =
        transact-line c timeout s (L.reply (c ++ (10 ∷ []))) up ascii asks refl full in
      let connected = is_open-IsUp P port s up in (v, o, ground (arith, e, connected))
