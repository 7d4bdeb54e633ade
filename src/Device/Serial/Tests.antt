-- ===== src/Device/Serial/Tests.antt =====
-- The theorems about the serial transport, over a port that answers each line with what was
-- written.
use owon_xdm1041_server.Base.{
  ◌≡◌, refl, ℕ, true, false, none, some, ok, err, unicode_error, transport_error, List, codes, [],
  encode_ascii, Text, has_text, starts_with,
}
use owon_xdm1041_server.Device.Manager
use owon_xdm1041_server.Device.Serial.{
  SerialTransport, serial_transport, open_line, close_line, transact,
}
use owon_xdm1041_server.Device.Serial.Ports.{
  HasAll, NoneOpen, Reach, begins, opens, transacts, changes, Reach-HoldsOne,
}
use owon_xdm1041_server.Device.Serial.Echo.{echo}
use owon_xdm1041_server.Device.Serial.Numbered.{numbered, numbered-OpensPorts, fresh}
use owon_xdm1041_server.Device.Serial.Threads.{Request, resetting, finished, read_line}
use owon_xdm1041_server.Device.Serial.Talking.{talking, talking-IsResponsive}
use owon_xdm1041_server.Device.Serial.Threads.Overlap.{turns, overlap, stolen_answer}
use owon_xdm1041_server.Device.Serial.Wire.{query_not_ascii}

abbrev plugged : SerialTransport echo
plugged = record {
  port = codes "/dev/ttyUSB0";
  baud_rate = 115200;
  serial = some tt;
  world = codes "stale";
}

query_not_ascii_example :
    Manager.query (serial_transport echo) 2000 (codes "RANGE 5KΩ?") none plugged
    ≡ (err unicode_error, record plugged { world = [] })
unfolding encode_ascii
query_not_ascii_example =
    query_not_ascii echo 2000 tt (codes "RANGE 5KΩ?") none plugged refl refl refl refl

-- A line on which the meter sends each command back.
abbrev back : List ℕ → List ℕ
back bytes = bytes

abbrev asked : Text → Request
asked command = record { command = command; expect_response = true; timeout = 2000 }

stolen_answer_example :
    let s =
      turns
        (talking back)
        tt
        (asked (codes "MEAS1?"))
        (asked (codes "RATE?"))
        overlap
        (record { first = resetting; second = resetting; world = [] }) in
    (s.first ≡ read_line (ok (back (codes "RATE?\n"))))
    × (s.second ≡ finished (err transport_error))
unfolding encode_ascii has_text starts_with
stolen_answer_example =
    stolen_answer (talking back) tt (talking-IsResponsive back) (asked (codes "MEAS1?"))
      (asked (codes "RATE?")) (codes "MEAS1?\n") (codes "RATE?\n") [] refl refl refl refl refl refl

-- The line is pulled out, and another port is opened.
abbrev reopened : SerialTransport numbered
reopened =
    (open_line numbered
      (record (open_line numbered fresh).1 { world = record { count = 1; opened = λ h. false } })).1

abbrev failed : SerialTransport numbered
failed = (transact numbered (codes "MEAS1?") true 2000 reopened).1

failed-Reach : Reach numbered failed
failed-Reach = transacts (codes "MEAS1?") true 2000 (
    opens (
      changes (record { count = 1; opened = λ h. false })
        (opens (begins (codes "/dev/ttyUSB0") 115200 fresh.world λ h. refl)) λ h e. refl))

Reach-HoldsOne_example : HasAll numbered failed × NoneOpen numbered (close_line numbered failed).1
Reach-HoldsOne_example = Reach-HoldsOne numbered numbered-OpensPorts failed failed-Reach
