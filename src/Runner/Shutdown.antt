-- ===== src/Runner/Shutdown.antt =====
-- The serial ports that are open after the server and after the probe.
use owon_xdm1041_server.Base.{
  ◌≡◌, ◌⊎◌, inl, inr, refl, ℕ, false, none, some, Action, Error, Result, ok, err, resume,
  try_finally,
}
use owon_xdm1041_server.Base.Floats.{Floats}
use owon_xdm1041_server.Device.Driver.{run_probe}
use owon_xdm1041_server.Device.Driver.Stays.{Stays, connect-Stays, run_probe-Stays}
use owon_xdm1041_server.Device.Manager
use owon_xdm1041_server.Device.Serial.{
  Pyserial, SerialTransport, open_line, close_line, serial_transport,
}
use owon_xdm1041_server.Device.Serial.Ports.{
  OpensPorts, NoneOpen, Reach, opens, closes, transacts, Reach-HoldsOne,
}
use owon_xdm1041_server.Runner.{Running, serve, probe}
use owon_xdm1041_server.Runner.Stages.{stop_all_lem}
use owon_xdm1041_server.Scpi.Listener.{Asyncio, IsAsyncio, shut-closed, start_lem}

module _ (P : Pyserial) (O : OpensPorts P) where
  open-Reach : Stays (Reach P) (open_line P)
  unfolding Stays
  open-Reach s r = opens r

  close-Reach : Stays (Reach P) (close_line P)
  unfolding Stays
  close-Reach s r = closes r

  -- Over an asyncio that keeps its documentation, and a pyserial that opens a port only where one
  -- is constructed and closes it by `close`: once the SCPI server listens, and however what `serve`
  -- gathers ends, where it has used the serial transport by its methods only, and where waiting for
  -- the end of the SCPI server and closing the line return: no SCPI connection is accepted any
  -- more, no serial port is open, and what was raised is raised on.
  pub serve_closes_port :
      (N : Asyncio) (L : IsAsyncio N) (default_timeout : ℕ)
      (gathered : Action (Running N (SerialTransport P)) (Unit {0}))
      (s : Running N (SerialTransport P)) (v : N.Server) (w : N.World)
      → N.start_server s.scpi.host s.scpi.port s.scpi.world ≡ (ok v, w)
      → let e = gathered (record s { scpi = record s.scpi { server = some v; world = w } }) in
        let r = serve N (serial_transport P) default_timeout gathered s in
        e.1.scpi.server ≡ some v
        → (N.wait_closed v (N.close v e.1.scpi.world)).0 ≡ ok tt
        → (close_line P e.1.device).0 ≡ ok tt
        → Reach P e.1.device
        → (r.0 ≡ e.0)
          × (r.1.scpi.server ≡ none)
          × (L.accepting v r.1.scpi.world ≡ false)
          × NoneOpen P r.1.device
  unfolding serve
  serve_closes_port N L default_timeout gathered s v w f kept k c reached =
      let u : Running N (SerialTransport P) = record s {
        scpi = record s.scpi { server = some v; world = w };
      } in
      let e = gathered u in
      rw (start_lem N L s.scpi v w f) (
        rw (stop_all_lem N L (serial_transport P) default_timeout e.1 v kept k c)
          (refl, refl, shut-closed N L v e.1.scpi, (Reach-HoldsOne P O e.1.device reached).1))

  module _ (F : Floats) (default_timeout : ℕ) where
    -- The rest of the probe, by what `start` does.
    probe_after :
        (r : Result (Unit {0})) (s : SerialTransport P)
        → Reach P s
        → let k = λ (u : Unit {0}).
          try_finally
            (run_probe F (serial_transport P) default_timeout)
            (Manager.stop (serial_transport P) default_timeout) in
          let q = resume k r s in
          ((r ≡ ok tt) × NoneOpen P q.1) ⊎ ((e : Error) × (r ≡ err e) × (q ≡ (err e, s)))
    unfolding Manager.stop Stays
    probe_after (ok u) s reached =
        let probed = (run_probe F (serial_transport P) default_timeout s).1 in
        let still =
          run_probe-Stays (serial_transport P) default_timeout (Reach P) open-Reach close-Reach
            (λ c x t s r. transacts c x t r) F s reached in
        inl (refl, (Reach-HoldsOne P O probed still).1)
    probe_after (err e) s reached = inr (e, refl, refl)

    -- Over a pyserial that opens a port only where one is constructed and closes it by `close`,
    -- whatever its methods return or raise: a probe of the serial transport whose `start` returns
    -- leaves no serial port open, whatever fails in between and also where it has reconnected; and
    -- one whose `start` raises raises the same and leaves the transport as `start` does.
    pub probe_closes_port :
        (s : SerialTransport P)
        → Reach P s
        → let u = Manager.start (serial_transport P) default_timeout s in
          let r = probe F (serial_transport P) default_timeout s in
          ((u.0 ≡ ok tt) × NoneOpen P r.1) ⊎ ((e : Error) × (u.0 ≡ err e) × (r ≡ (err e, u.1)))
    unfolding probe Manager.start Stays
    probe_closes_port s reached =
        let u = Manager.connect (serial_transport P) default_timeout s in
        let still =
          connect-Stays (serial_transport P) default_timeout (Reach P) open-Reach close-Reach
            (λ c x t s r. transacts c x t r) s reached in
        probe_after u.0 u.1 still
