-- ===== src/Device/Serial/Threads/Whole.antt =====
-- A thread that runs alone does what `_transact_blocking` does as a whole.
use owon_xdm1041_server.Base.{◌≡◌, arith}
use owon_xdm1041_server.Device.Serial.{Pyserial, SerialTransport, exchange, transact_blocking}
use owon_xdm1041_server.Device.Serial.Threads.{Request, resetting, finished, step, run}

module _ (P : Pyserial) (port : P.Port) where
  -- A thread ends after five calls of the port at most, with what `_transact_blocking` returns or
  -- raises, and the world is as that leaves it.
  run-transact_blocking :
      (q : Request) (s : SerialTransport P)
      → let r = transact_blocking P port q.command q.expect_response q.timeout s in
        let e = run P port q 5 (resetting, s.world) in
        (e ≡ (finished r.0, r.1.world)) × (r.1 ≡ record s { world = e.1 })
  unfolding run step transact_blocking exchange
  run-transact_blocking q s = (ground arith, ground arith)
