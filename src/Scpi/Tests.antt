-- ===== src/Scpi/Tests.antt =====
-- The theorems about the socket, in front of a mock in resistance mode and of a serial port.
use owon_xdm1041_server.Base.{
  ℕ, Bool, Result, if◌then◌else◌, ◌++◌, some, arith, ◌≡◌, ◌≢◌, refl, inr, true, false, ok, err,
  unicode_error, connection_error, codes, List, [], ◌∷◌, strip, upper, text_eq, starts_with,
  has_text, decode_ascii, encode_ascii,
}
use owon_xdm1041_server.Base.Symbolic.{symbolic}
use owon_xdm1041_server.Device.Commands.{resistance}
use owon_xdm1041_server.Device.Manager
use owon_xdm1041_server.Device.Mock
use owon_xdm1041_server.Device.Mock.{MockTransport, new_mock, mock_transport}
use owon_xdm1041_server.Device.Transport.{Transport}
use owon_xdm1041_server.Scpi.{Incoming, line, lost, others, Session, handle_client}
use owon_xdm1041_server.Scpi.Replies.{Answers, queries, handle_client_replies}
use owon_xdm1041_server.Scpi.Encoding.{handle_client_not_ascii}
use owon_xdm1041_server.Scpi.Served.{
  Converses, ends, after_others, after_query, after_command, after_blank, handle_client-served,
}
use owon_xdm1041_server.Device.Serial.{Pyserial, SerialTransport, serial_transport}
use owon_xdm1041_server.Device.Serial.Metered.{IsMeter}
use owon_xdm1041_server.Device.Serial.Responsive.{IsUp, StaysOpen}

abbrev meter : Transport
meter = mock_transport symbolic

abbrev bench : MockTransport
bench = record new_mock { is_open = true; function = resistance }

abbrev connected : Session MockTransport
connected = record { device = bench; written = []; closed = false }

abbrev stream : List (Incoming MockTransport)
stream =
    line (codes "FUNC1?\n") true ∷ line (codes "\n") true ∷ line (codes "RATE F\n") true ∷ lost ∷ []

handle_client_replies_example :
    ((handle_client meter 2000 stream connected).1.closed ≡ true)
    × ((handle_client meter 2000 stream connected).0 ≢ err connection_error)
    × Answers (queries stream) connected (handle_client meter 2000 stream connected).1
handle_client_replies_example = handle_client_replies meter 2000 stream connected

-- The mock answers RANGE? in resistance mode by a text with an ohm sign.
handle_client_not_ascii_example :
    handle_client meter 2000 (line (codes "RANGE?\n") true ∷ stream) connected
    ≡ (err unicode_error, record connected { closed = true })
unfolding Manager.query Manager.transact Manager.ensure_open Manager.attempt Mock.transact
    Mock.handle Mock.range_display has_text strip decode_ascii encode_ascii upper text_eq
    starts_with
handle_client_not_ascii_example =
    handle_client_not_ascii meter 2000 (codes "RANGE?\n") true stream connected bench
      (ok (codes "5KΩ")) refl refl (inr (codes "5KΩ", refl, refl))

-- A meter that is slow or fast, and its replies that wait.
record Bench : Type 0 where
  fast : Bool
  waiting : List (List ℕ)

abbrev said : Bool → List ℕ
said true = codes "F\r\n"
said false = codes "S\r\n"

-- RATE F makes it fast.
abbrev rate_after : Bool → List ℕ → Bool
rate_after fast bytes = if text_eq bytes (codes "RATE F\n") then true else fast

abbrev next_line : List (List ℕ) → Result (List ℕ) × List (List ℕ)
next_line [] = (ok [], [])
next_line (reply ∷ rest) = (ok reply, rest)

abbrev rated : Pyserial
rated = record {
  World = Bench;
  Port = Unit {0};
  construct = λ port baud_rate w. (ok tt, w);
  is_open = λ h w. true;
  close = λ h w. (ok tt, w);
  reset_input_buffer = λ h w. (ok tt, record w { waiting = [] });
  write = λ h bytes w.
      (ok tt, record { fast = rate_after w.fast bytes; waiting = w.waiting ++ (said w.fast ∷ []) });
  flush = λ h w. (ok tt, w);
  set_timeout = λ h t w. (ok tt, w);
  readline = λ h w. let r = next_line w.waiting in (r.0, record w { waiting = r.1 });
}

abbrev rated-IsMeter : IsMeter rated tt
rated-IsMeter = record {
  Meter = Bool;
  meter = λ w. w.fast;
  reply = λ m bytes. said m;
  after = rate_after;
  pending = λ w. w.waiting;
  reset_lem = λ w. (refl, refl, refl);
  write_lem = λ bytes w. (refl, refl);
  replied = λ bytes w asks. refl;
  flush_lem = λ w. (refl, refl, refl);
  timeout_lem = λ t w. (refl, refl, refl);
  readline_lem = λ line rest w e. rw e (refl, refl, refl);
}

rated-StaysOpen : StaysOpen rated tt
rated-StaysOpen = record {
  reset_open = λ w o. refl;
  write_open = λ bytes w o. refl;
  flush_open = λ w o. refl;
  timeout_open = λ t w o. refl;
  readline_open = λ w o. refl;
}

full_line : (b : ℕ) (bytes : List ℕ) → b ∷ bytes ≢ []
full_line b bytes e = absurd cc

abbrev wired : Session (SerialTransport rated)
wired = record {
  device = record {
    port = codes "/dev/ttyUSB0";
    baud_rate = 115200;
    serial = some tt;
    world = record { fast = false; waiting = codes "stale" ∷ [] };
  };
  written = [];
  closed = false;
}

abbrev asking : List (Incoming (SerialTransport rated))
asking =
    line (codes " RATE?\r\n") true
    ∷ others (λ s. s)
    ∷ line (codes "RATE F\n") true
    ∷ line (codes " \n") true
    ∷ line (codes "RATE?\n") true
    ∷ []

asking-Converses :
    Converses rated tt rated-IsMeter false asking (codes "S\n" ∷ codes "F\n" ∷ []) true
unfolding strip has_text starts_with text_eq
asking-Converses =
    after_query (codes " RATE?\r\n") (ground arith, full_line _ _) refl
      (ground arith, full_line _ _)
      (after_others (λ s. s) (λ s up at. (up, at))
        (after_command (codes "RATE F\n") (ground arith, full_line _ _) refl refl
          (after_blank (codes " \n") (ground arith, full_line _ _) refl
            (after_query (codes "RATE?\n") (ground arith, full_line _ _) refl
              (ground arith, full_line _ _) (ends true)))))

handle_client-served_example :
    let r = handle_client (serial_transport rated) 2000 asking wired in
    (r.0 ≡ ok tt)
    × (r.1.written ≡ codes "S\n" ∷ codes "F\n" ∷ [])
    × (r.1.closed ≡ true)
    × IsUp rated tt r.1.device
    × (r.1.device.world.fast ≡ true)
handle_client-served_example =
    handle_client-served rated tt rated-IsMeter rated-StaysOpen 2000 false asking
      (codes "S\n" ∷ codes "F\n" ∷ []) true wired asking-Converses
      (record { serial = refl; opened = refl }) refl
