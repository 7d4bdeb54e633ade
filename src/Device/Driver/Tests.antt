-- ===== src/Device/Driver/Tests.antt =====
-- The theorems about the driver at a concrete meter.
use owon_xdm1041_server.Base.{
  ◌≡◌, refl, ℕ, Bool, List, text_eq, decode_ascii, upper, true, false, none, some, ok, err,
  device_error, codes, [], ◌∷◌, strip,
}
use owon_xdm1041_server.Base.Symbolic.{symbolic, symbolic-IsPrintable}
use owon_xdm1041_server.Device.Commands
use owon_xdm1041_server.Device.Commands.{
  diode, temperature, fast, configure_command, unit_for, no_range_query,
}
use owon_xdm1041_server.Device.Manager
use owon_xdm1041_server.Device.Mock.{
  MockTransport, new_mock, mock_transport, measured, set_front_panel, set_fail_next,
}
use owon_xdm1041_server.Device.Driver.{set_function, read_state, read_measurement}
use owon_xdm1041_server.Device.Driver.Exchange.{IsReady}
use owon_xdm1041_server.Device.Driver.Online.{Reports, reported, reads_reported}
use owon_xdm1041_server.Device.Serial.{SerialTransport, serial_transport}
use owon_xdm1041_server.Device.Serial.Responsive.{Returns}
use owon_xdm1041_server.Device.Serial.Talking.{talking, talking-IsResponsive, talking-StaysOpen}
use owon_xdm1041_server.Device.Driver.Snapshot.{snapshot, read_state-mock}
use owon_xdm1041_server.Device.Driver.Settings.{configured, set_function-mock}
use owon_xdm1041_server.Device.Driver.Recovery.{reconnected, transact-fail_next}
use owon_xdm1041_server.Device.Driver.Interference.{shared, read_measurement-front_panel}

-- An open meter in diode mode.
abbrev bench : MockTransport
bench = record new_mock { is_open = true; function = diode }

bench-IsReady : IsReady bench
bench-IsReady = record { open_now = refl; sound = refl }

read_state-mock_example :
    read_state (mock_transport symbolic) 2000 bench ≡ (ok (snapshot bench), bench)
read_state-mock_example = read_state-mock symbolic 2000 bench bench-IsReady

set_function-mock_example :
    set_function (mock_transport symbolic) 2000 temperature (codes "PT100") bench
    ≡ (ok tt, configured temperature (strip (configure_command temperature (codes "PT100"))) bench)
set_function-mock_example =
    set_function-mock symbolic 2000 temperature (codes "PT100") bench bench-IsReady

transact-fail_next_example :
    let r =
      Manager.transact
        (mock_transport symbolic)
        2000
        Commands.measure
        true
        none
        (set_fail_next (codes "unplugged") bench) in
    (r ≡ (err device_error, record bench { is_open = false; fail_next = none }))
    × (Manager.transact (mock_transport symbolic) 2000 Commands.function true none r.1
        ≡ Manager.transact
            (mock_transport symbolic)
            2000
            Commands.function
            true
            none
            (reconnected bench))
transact-fail_next_example =
    transact-fail_next symbolic 2000 (codes "unplugged") Commands.measure Commands.function true
      true none none bench refl

read_measurement-front_panel_example :
    read_measurement symbolic (shared (mock_transport symbolic)) 2000 (record {
      state = bench;
      others = (λ u. u) ∷ set_front_panel (some temperature) none none ∷ [];
    })
    ≡ (
      ok (record {
        value = measured symbolic temperature 1;
        function = diode;
        unit = unit_for diode;
      }),
      record { state = record bench { function = temperature; tick = 1 }; others = [] },
    )
read_measurement-front_panel_example =
    read_measurement-front_panel symbolic 2000 symbolic-IsPrintable bench temperature bench-IsReady

-- A meter in temperature mode, with its answers in the form of the real one.
abbrev reply_in : Bool → Bool → Bool → Bool → List ℕ
reply_in true _ _ _ = codes "\"Temp\"\r\n"
reply_in false true _ _ = codes "F\r\n"
reply_in false false true _ = codes "1\r\n"
reply_in false false false true = codes "2.5E+01\r\n"
reply_in false false false false = []

abbrev thermometer : List ℕ → List ℕ
thermometer bytes =
    reply_in (text_eq bytes (codes "FUNC1?\n")) (text_eq bytes (codes "RATE?\n"))
      (text_eq bytes (codes "AUTO?\n")) (text_eq bytes (codes "MEAS1?\n"))

thermometer-Reports : Reports (talking-IsResponsive thermometer) temperature fast true
unfolding text_eq strip decode_ascii upper no_range_query
thermometer-Reports = record {
  spelling = codes "Temp";
  spelled = refl;
  function_said = refl;
  function_replied = λ e. cc;
  rate_said = refl;
  rate_replied = λ e. cc;
  auto_range_said = refl;
  auto_range_replied = λ e. cc;
  range_replied = λ e. absurd cc;
  measure_replied = λ e. cc;
}

abbrev wired : SerialTransport (talking thermometer)
wired = record {
  port = codes "/dev/ttyUSB0";
  baud_rate = 115200;
  serial = some tt;
  world = codes "stale" ∷ [];
}

reads_reported_example :
    Returns
      (talking thermometer)
      tt
      (talking-IsResponsive thermometer)
      (talking-StaysOpen thermometer)
      (read_state (serial_transport (talking thermometer)) 2000)
      wired
      (reported (talking-IsResponsive thermometer) temperature fast true)
    × Returns
        (talking thermometer)
        tt
        (talking-IsResponsive thermometer)
        (talking-StaysOpen thermometer)
        (read_measurement symbolic (serial_transport (talking thermometer)) 2000)
        wired
        (record { value = codes "2.5E+01"; function = temperature; unit = unit_for temperature })
unfolding text_eq strip decode_ascii
reads_reported_example =
    reads_reported (talking thermometer) tt (talking-IsResponsive thermometer)
      (talking-StaysOpen thermometer) 2000 temperature fast true thermometer-Reports symbolic
      (codes "2.5E+01") wired (record { serial = refl; opened = refl }) refl
