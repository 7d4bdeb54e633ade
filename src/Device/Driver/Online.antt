-- ===== src/Device/Driver/Online.antt =====
-- The driver over a serial port at which a meter answers: device/driver.py over device/manager.py
-- over device/transport.py.
use mathlib.Core.List.{append-nil}
use owon_xdm1041_server.Base.{
  ◌≡◌, ◌≢◌, refl, sym, ap, ◌∙◌, ℕ, Bool, true, false, none, some, List, [], ◌∷◌, ◌++◌, ok, Text,
  codes, strip, upper, text_eq, has_text, starts_with, decode_ascii, if◌then◌else◌, arith,
  Bool-cases, inl, inr,
}
use owon_xdm1041_server.Base.Floats.{Floats}
use owon_xdm1041_server.Device.Commands
use owon_xdm1041_server.Device.Commands.{
  Function, function_value, Rate, rate_value, unit_for, no_range_query, unquote,
  function_from_device,
}
use owon_xdm1041_server.Device.Commands.Parsing.{quote, function_from_device-quote}
use owon_xdm1041_server.Device.Driver.{
  DeviceState, get_function, get_rate, get_auto_range, range_in, get_range, read_state,
  read_measurement,
}
use owon_xdm1041_server.Device.Driver.Snapshot.{read_rate}
use owon_xdm1041_server.Device.Serial.{Pyserial, SerialTransport, serial_transport}
use owon_xdm1041_server.Device.Serial.Responsive.{StaysOpen, IsUp, Returns, query-decoded}
use owon_xdm1041_server.Device.Serial.Threads.Overlap.{IsResponsive}

module _ {P : Pyserial} {port : P.Port} (L : IsResponsive P port) where
  -- The bytes with which the meter replies to a command, and their text.
  abbrev pub replied : Text → List ℕ
  replied command = L.reply (command ++ (10 ∷ []))

  abbrev pub said : Text → Text
  said command = strip (decode_ascii (replied command))

  -- The meter is in this state, and says so: the function in quotes and in any letter case, the
  -- rate, and 1 or 0 for the automatic range. It replies to RANGE? in the functions that are asked
  -- for it.
  pub record Reports (function : Function) (rate : Rate) (auto_range : Bool) : Type 0 where
    pub spelling : Text
    pub spelled : upper spelling ≡ function_value function
    pub function_said : said Commands.function ≡ quote spelling
    pub function_replied : replied Commands.function ≢ []
    pub rate_said : said Commands.rate_query ≡ rate_value rate
    pub rate_replied : replied Commands.rate_query ≢ []
    pub auto_range_said :
        said Commands.auto_range_query ≡ (if auto_range then codes "1" else codes "0")
    pub auto_range_replied : replied Commands.auto_range_query ≢ []
    pub range_replied : no_range_query function ≡ false → replied Commands.range_query ≢ []
    pub measure_replied : replied Commands.measure ≢ []

  -- The state as the driver should report it.
  abbrev pub reported : Function → Rate → Bool → DeviceState
  reported function rate auto_range = record {
    function = function;
    rate = rate;
    auto_range = auto_range;
    range = if no_range_query function then none else some (unquote (said Commands.range_query));
  }

read_quoted :
    (f : Function) (t : Text) → upper t ≡ function_value f → function_from_device (quote t) ≡ ok f
read_quoted f t e =
    ap function_from_device (sym (append-nil (quote t)))
    ∙ function_from_device-quote f [] t [] tt tt e

read_flag : (b : Bool) → text_eq (strip (if b then codes "1" else codes "0")) (codes "1") ≡ b
unfolding strip text_eq
read_flag true = refl
read_flag false = refl

module _ (P : Pyserial) (port : P.Port) (L : IsResponsive P port) (O : StaysOpen P port)
    (default_timeout : ℕ) (function : Function) (rate : Rate) (auto_range : Bool)
    (R : Reports L function rate auto_range) where
  get_function-Returns :
      (s : SerialTransport P)
      → IsUp P port s
      → Returns P port L O (get_function (serial_transport P) default_timeout) s function
  unfolding get_function has_text starts_with
  get_function-Returns s up =
      let (v, o, e) =
        query-decoded P port L O default_timeout Commands.function none s up (ground arith) refl
          R.function_replied in
      (v, o, ground (arith, e, R.function_said, read_quoted function R.spelling R.spelled))

  get_rate-Returns :
      (s : SerialTransport P)
      → IsUp P port s
      → Returns P port L O (get_rate (serial_transport P) default_timeout) s rate
  unfolding get_rate has_text starts_with
  get_rate-Returns s up =
      let (v, o, e) =
        query-decoded P port L O default_timeout Commands.rate_query none s up (ground arith) refl
          R.rate_replied in
      (v, o, ground (arith, e, R.rate_said, read_rate rate))

  get_auto_range-Returns :
      (s : SerialTransport P)
      → IsUp P port s
      → Returns P port L O (get_auto_range (serial_transport P) default_timeout) s auto_range
  unfolding get_auto_range has_text starts_with
  get_auto_range-Returns s up =
      let (v, o, e) =
        query-decoded P port L O default_timeout Commands.auto_range_query none s up (ground arith)
          refl R.auto_range_replied in
      (v, o, ground (arith, e, R.auto_range_said, read_flag auto_range))

  range_in-Returns :
      (s : SerialTransport P)
      → IsUp P port s
      → Returns P port L O
          (range_in (serial_transport P) default_timeout function)
          s
          (if no_range_query function then none else some (unquote (said L Commands.range_query)))
  unfolding range_in has_text starts_with
  range_in-Returns s up = elim (Bool-cases (no_range_query function)) [
    | inl silent ↦ (s.world, up.opened, rw silent refl)
    | inr asked ↦
        let (v, o, e) =
          query-decoded P port L O default_timeout Commands.range_query none s up (ground arith)
            refl (R.range_replied asked) in
        (v, o, ground (arith, e, asked))
  ]

  read_state-Returns :
      (s : SerialTransport P)
      → IsUp P port s
      → Returns P port L O
          (read_state (serial_transport P) default_timeout)
          s
          (reported L function rate auto_range)
  unfolding read_state get_range
  read_state-Returns s up =
      let (v1, o1, e1) = get_function-Returns s up in
      let s1 : SerialTransport P = record s { world = v1 } in
      let (v2, o2, e2) = get_rate-Returns s1 (record { serial = up.serial; opened = o1 }) in
      let s2 : SerialTransport P = record s { world = v2 } in
      let (v3, o3, e3) = get_auto_range-Returns s2 (record { serial = up.serial; opened = o2 }) in
      let s3 : SerialTransport P = record s { world = v3 } in
      let (v4, o4, e4) = range_in-Returns s3 (record { serial = up.serial; opened = o3 }) in
      (v4, o4, ground (arith, e1, e2, e3, e4))

  -- At an open port at which the meter replies to each query of the driver and says what state it
  -- is in, with its function in quotes in any letter case, and a number to MEAS1?: `read_state`
  -- returns just that state, with the range exactly in the functions that are asked for it;
  -- `read_measurement` returns the number with the function and its unit; and the port is as open
  -- as before.
  pub reads_reported :
      (F : Floats) (x : F.Float) (s : SerialTransport P)
      → IsUp P port s
      → F.of_text (said L Commands.measure) ≡ some x
      → Returns P port L O
          (read_state (serial_transport P) default_timeout)
          s
          (reported L function rate auto_range)
        × Returns P port L O
            (read_measurement F (serial_transport P) default_timeout)
            s
            (record { value = x; function = function; unit = unit_for function })
  unfolding read_measurement has_text starts_with
  reads_reported F x s up number =
      let (v1, o1, e1) = get_function-Returns s up in
      let s1 : SerialTransport P = record s { world = v1 } in
      let (v2, o2, e2) =
        query-decoded P port L O default_timeout Commands.measure none s1
          (record { serial = up.serial; opened = o1 }) (ground arith) refl R.measure_replied in
      (read_state-Returns s up, (v2, o2, ground (arith, e1, e2, number)))
