-- ===== src/Runner/Stages.antt =====
-- What is left open after the server and after the probe, over any transport.
use owon_xdm1041_server.Base.{
  ◌≡◌, refl, ℕ, ◌+◌, true, false, none, some, Action, Error, Result, ok, err, resume, try_finally,
  ◌⊎◌, inl, inr, codes, arith,
}
use owon_xdm1041_server.Base.Floats.{Floats, IsPrintable}
use owon_xdm1041_server.Device.Commands.{function_value, rate_value, unit_for}
use owon_xdm1041_server.Device.Driver.{run_probe}
use owon_xdm1041_server.Device.Driver.Probe.{run_probe-mock}
use owon_xdm1041_server.Device.Manager
use owon_xdm1041_server.Device.Manager.{connect, start, stop}
use owon_xdm1041_server.Device.Mock.{
  MockTransport, transact, mock_transport, range_display, measured,
}
use owon_xdm1041_server.Device.Mock.Lawful.{handle-local}
use owon_xdm1041_server.Device.Transport.{Transport, IsTransport}
use owon_xdm1041_server.Runner.{Running, stop_all, serve, probe}
use owon_xdm1041_server.Scpi.Listener
use owon_xdm1041_server.Scpi.Listener.{Asyncio, IsAsyncio, shut, shut-closed, start_lem, stop_lem}

module _ (N : Asyncio) (L : IsAsyncio N) (T : Transport) (default_timeout : ℕ) where
  pub stop_all_lem :
      (s : Running N T.State) (v : N.Server)
      → s.scpi.server ≡ some v
      → (N.wait_closed v (N.close v s.scpi.world)).0 ≡ ok tt
      → (T.close_line s.device).0 ≡ ok tt
      → stop_all N T default_timeout s ≡ (
        ok tt,
        record {
          device = (T.close_line s.device).1;
          scpi = record s.scpi { server = none; world = (shut N v s.scpi).1.world };
        },
      )
  unfolding stop_all Manager.stop
  stop_all_lem s v kept k c = ground (arith, stop_lem N L s.scpi v kept k, c)

module _ (N : Asyncio) (L : IsAsyncio N) (T : Transport) (K : IsTransport T)
    (default_timeout : ℕ) where
  -- Over an asyncio and a transport that keep their documentation: once the SCPI server listens,
  -- and however what `serve` gathers ends, where waiting for the end of the SCPI server returns: no
  -- SCPI connection is accepted any more, the meter's line is closed, and what was raised is raised
  -- on, unless closing the line raises.
  pub serve_stops :
      (gathered : Action (Running N T.State) (Unit {0})) (s : Running N T.State) (v : N.Server)
      (w : N.World)
      → N.start_server s.scpi.host s.scpi.port s.scpi.world ≡ (ok v, w)
      → let u = record s { scpi = record s.scpi { server = some v; world = w } } in
        let e = gathered u in
        let r = serve N T default_timeout gathered s in
        e.1.scpi.server ≡ some v
        → (N.wait_closed v (N.close v e.1.scpi.world)).0 ≡ ok tt
        → (T.close_line e.1.device).0 ≡ ok tt
        → (r.0 ≡ e.0)
          × (r.1.scpi.server ≡ none)
          × (L.accepting v r.1.scpi.world ≡ false)
          × (T.is_open r.1.device ≡ false)
  unfolding serve
  serve_stops gathered s v w f kept k c =
      let u : Running N T.State = record s {
        scpi = record s.scpi { server = some v; world = w };
      } in
      let e = gathered u in
      rw (start_lem N L s.scpi v w f) (
        rw (stop_all_lem N L T default_timeout e.1 v kept k c)
          (refl, refl, shut-closed N L v e.1.scpi, K.closes e.1.device))

  stop_all-err :
      (s : Running N T.State) (v : N.Server) (x : Error)
      → s.scpi.server ≡ some v
      → (N.wait_closed v (N.close v s.scpi.world)).0 ≡ err x
      → ((stop_all N T default_timeout s).0 ≡ err x)
        × ((stop_all N T default_timeout s).1.device ≡ s.device)
  unfolding stop_all Listener.stop
  stop_all-err s v x kept k = (ground arith, ground arith)

  -- Once the SCPI server listens, and however what `serve` gathers ends, where waiting for the end
  -- of the SCPI server raises: the server ends with that exception, whatever was raised before, and
  -- leaves the meter's line as it was.
  pub serve_leaves_line :
      (gathered : Action (Running N T.State) (Unit {0})) (s : Running N T.State) (v : N.Server)
      (w : N.World) (x : Error)
      → N.start_server s.scpi.host s.scpi.port s.scpi.world ≡ (ok v, w)
      → let u = record s { scpi = record s.scpi { server = some v; world = w } } in
        let e = gathered u in
        let r = serve N T default_timeout gathered s in
        e.1.scpi.server ≡ some v
        → (N.wait_closed v (N.close v e.1.scpi.world)).0 ≡ err x
        → (r.0 ≡ err x) × (r.1.device ≡ e.1.device)
  unfolding serve
  serve_leaves_line gathered s v w x f kept k =
      let u : Running N T.State = record s {
        scpi = record s.scpi { server = some v; world = w };
      } in
      let (raised, device) = stop_all-err (gathered u).1 v x kept k in
      rw (start_lem N L s.scpi v w f) (rw raised refl, device)

module _ (F : Floats) (default_timeout : ℕ) where
  -- On a closed mock with no failure due, the probe connects in local mode, returns the meter's
  -- identity, its state and one reading, and leaves the line closed; else only the tick has
  -- changed. It relies on `float(repr(x))` being `x`.
  pub probe-mock :
      IsPrintable F
      → (s : MockTransport) → s.is_open ≡ false
      → s.fail_next ≡ none
      → probe F (mock_transport F) default_timeout s ≡ (
        ok (record {
          identity = codes "OWON,XDM1041,MOCK0001,V1.2.0,3";
          function = function_value s.function;
          rate = rate_value s.rate;
          auto_range = s.auto_range;
          range = range_display s.function;
          value = measured F s.function (s.tick + 1);
          unit = unit_for s.function;
        }),
        record s { is_open = false; remote = false; tick = s.tick + 1 },
      )
  unfolding probe start stop connect transact
  probe-mock P s closed sound =
      let u : MockTransport = record s { is_open = true; remote = false } in
      ground (
        arith,
        handle-local F (record s { is_open = true }),
        run_probe-mock F default_timeout P u (record { open_now = refl; sound = sound }),
      )

module _ (F : Floats) (T : Transport) (K : IsTransport T) (default_timeout : ℕ) where
  -- The rest of the probe, by what `start` does.
  probe_after :
      (r : Result (Unit {0})) (s : T.State)
      → let k = λ (u : Unit {0}).
        try_finally (run_probe F T default_timeout) (Manager.stop T default_timeout) in
        let q = resume k r s in
        ((r ≡ ok tt) × (T.is_open q.1 ≡ false)) ⊎ ((e : Error) × (r ≡ err e) × (q ≡ (err e, s)))
  unfolding stop
  probe_after (ok u) s = inl (refl, K.closes (run_probe F T default_timeout s).1)
  probe_after (err e) s = inr (e, refl, refl)

  -- Over a transport that keeps its promises: a probe whose `start` returns leaves the line closed,
  -- whatever happens in between; and one whose `start` raises raises the same and leaves the line
  -- as `start` does.
  pub probe_closes :
      (s : T.State)
      → let u = Manager.start T default_timeout s in
        let r = probe F T default_timeout s in
        ((u.0 ≡ ok tt) × (T.is_open r.1 ≡ false))
        ⊎ ((e : Error) × (u.0 ≡ err e) × (r ≡ (err e, u.1)))
  unfolding probe
  probe_closes s = let u = Manager.start T default_timeout s in probe_after u.0 u.1
