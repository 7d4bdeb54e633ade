-- ===== src/Runner/Tests.antt =====
-- The theorems about the start and the stop of the whole and the command line, over one listening
-- socket and the mock.
use owon_xdm1041_server.Base.{
  ◌≡◌, ◌⊎◌, List, [], ◌∷◌, Text, Result, Error, refl, sym, ap, Bool, true, false, none, some,
  Action, ok, err, connection_error, cancelled, raise, codes,
}
use owon_xdm1041_server.Base.Symbolic.{symbolic, symbolic-IsPrintable}
use owon_xdm1041_server.Device.Commands.{function_value, rate_value, unit_for}
use owon_xdm1041_server.Device.Mock.{
  MockTransport, new_mock, mock_transport, range_display, measured,
}
use owon_xdm1041_server.Device.Mock.Lawful.{mock_transport-IsTransport}
use owon_xdm1041_server.Device.Manager
use owon_xdm1041_server.Device.Serial.{
  SerialTransport, is_open, open_line, close_line, serial_transport,
}
use owon_xdm1041_server.Device.Serial.Echo.{echo}
use owon_xdm1041_server.Device.Serial.Numbered.{numbered, numbered-OpensPorts, fresh}
use owon_xdm1041_server.Device.Serial.Ports.{NoneOpen, Reach, begins, opens}
use owon_xdm1041_server.Device.Transport.{Transport}
use owon_xdm1041_server.Runner.{Running, build_running, serve, probe, stack_for}
use owon_xdm1041_server.Runner.Shutdown.{serve_closes_port, probe_closes_port}
use owon_xdm1041_server.Runner.Stages.{serve_leaves_line, probe-mock}
use owon_xdm1041_server.Scpi.Listener.{
  Asyncio, ScpiServer, IsAsyncio, serve_forever, stop, serve_forever_closes,
}
use owon_xdm1041_server.Runner.Main.{Arguments, ArgumentParser, main}
use owon_xdm1041_server.Runner.Main.Printed.{Exits, main-Exits}
use owon_xdm1041_server.Settings.{defaults}

-- The world is whether the one socket listens; serving ends by an error of the connection.
abbrev one_socket : Asyncio
one_socket = record {
  World = Bool;
  Server = Unit {0};
  start_server = λ host port w. (ok tt, true);
  bound_port = λ v w. 5025;
  serve_forever = λ v w. (err connection_error, w);
  close = λ v w. false;
  wait_closed = λ v w. (ok tt, w);
}

abbrev one_socket-IsAsyncio : IsAsyncio one_socket
one_socket-IsAsyncio = record {
  accepting = λ v w. w;
  started = λ host port w w' v e. ap (λ r. r.1) (sym e);
  closed = λ v w. refl;
  waited = λ v w e. e;
}

abbrev meter : Transport
meter = mock_transport symbolic

abbrev open_meter : MockTransport
open_meter = record new_mock { is_open = true }

abbrev server : ScpiServer one_socket
server = (build_running {N = one_socket} defaults false open_meter).scpi

serve_forever_closes_example :
    let r = serve_forever one_socket server in
    let q = stop one_socket r.1 in
    (r.1.server ≡ some tt)
    × (r.1.world ≡ false)
    × (q.0 ≡ ok tt)
    × (q.1.world ≡ false)
    × (q.1.server ≡ none)
unfolding serve_forever
serve_forever_closes_example =
    serve_forever_closes one_socket one_socket-IsAsyncio server tt true refl refl refl

fresh-Reach : Reach numbered fresh
fresh-Reach = begins (codes "/dev/ttyUSB0") 115200 fresh.world λ h. refl

-- A socket with a client that stays: the wait for its end is ended by a cancellation.
abbrev crowded : Asyncio
crowded = record one_socket { wait_closed = λ v w. (err cancelled, w) }

abbrev crowded-IsAsyncio : IsAsyncio crowded
crowded-IsAsyncio = record {
  accepting = λ v w. w;
  started = λ host port w w' v e. ap (λ r. r.1) (sym e);
  closed = λ v w. refl;
  waited = λ v w e. e;
}

abbrev ended : Action (Running crowded MockTransport) (Unit {0})
ended = raise connection_error

serve_leaves_line_example :
    let r =
      serve crowded meter 2000 ended (build_running {N = crowded} defaults false open_meter) in
    (r.0 ≡ err cancelled) × (r.1.device ≡ open_meter)
serve_leaves_line_example =
    serve_leaves_line crowded crowded-IsAsyncio meter (mock_transport-IsTransport symbolic) 2000
      ended (build_running {N = crowded} defaults false open_meter) tt true cancelled refl refl refl

-- The poller opens a port, and then the web server ends by an exception.
abbrev polled : Action (Running one_socket (SerialTransport numbered)) (Unit {0})
polled s = (err connection_error, record s { device = (open_line numbered s.device).1 })

serve_closes_port_example :
    let r =
      serve one_socket
        (serial_transport numbered)
        2000
        polled
        (build_running {N = one_socket} defaults false fresh) in
    (r.0 ≡ err connection_error)
    × (r.1.scpi.server ≡ none)
    × (r.1.scpi.world ≡ false)
    × NoneOpen numbered r.1.device
unfolding open_line is_open close_line
serve_closes_port_example =
    serve_closes_port numbered numbered-OpensPorts one_socket one_socket-IsAsyncio 2000 polled
      (build_running {N = one_socket} defaults false fresh) tt true refl refl refl refl
      (opens fresh-Reach)

probe_closes_port_example :
    let u = Manager.start (serial_transport numbered) 2000 fresh in
    let r = probe symbolic (serial_transport numbered) 2000 fresh in
    ((u.0 ≡ ok tt) × NoneOpen numbered r.1) ⊎ ((e : Error) × (u.0 ≡ err e) × (r ≡ (err e, u.1)))
probe_closes_port_example =
    probe_closes_port numbered numbered-OpensPorts symbolic 2000 fresh fresh-Reach

probe-mock_example : probe symbolic meter 2000 new_mock ≡ (
  ok (record {
    identity = codes "OWON,XDM1041,MOCK0001,V1.2.0,3";
    function = function_value new_mock.function;
    rate = rate_value new_mock.rate;
    auto_range = new_mock.auto_range;
    range = range_display new_mock.function;
    value = measured symbolic new_mock.function 1;
    unit = unit_for new_mock.function;
  }),
  record new_mock { is_open = false; remote = false; tick = 1 },
)
probe-mock_example = probe-mock symbolic 2000 symbolic-IsPrintable new_mock refl refl

-- A parser that knows the subcommand of the probe, with --mock.
abbrev parse_probe : List Text → Result Arguments
parse_probe [] = ok (record { command = none; mock = false })
parse_probe (command ∷ rest) = ok (record { command = some command; mock = true })

abbrev parser : ArgumentParser
parser = record { parse_args = parse_probe; help = codes "usage: owon-xdm1041-server" ∷ [] }

abbrev nothing_gathered :
    (use_mock : Bool)
    → Action
        (Running one_socket (stack_for symbolic echo [] defaults use_mock).transport.0.State)
        (Unit {0})
nothing_gathered use_mock = raise connection_error

main-Exits_example :
    Exits symbolic echo [] one_socket parser defaults false nothing_gathered
      (ok (record { command = some (codes "probe"); mock = true }))
      (main symbolic echo [] one_socket parser defaults false nothing_gathered (codes "probe" ∷ []))
main-Exits_example =
    main-Exits symbolic echo [] one_socket parser defaults false nothing_gathered
      (codes "probe" ∷ [])
