-- ===== src/Web/Lifespan/Stages.antt =====
-- The application from its start to its stop.
use owon_xdm1041_server.Base.{
  ◌≡◌, refl, Bool, true, false, Option, none, some, List, [], ◌∷◌, Error, ok, err, arith,
}
use owon_xdm1041_server.Base.Floats.{Floats}
use owon_xdm1041_server.Models.{Reading}
use owon_xdm1041_server.Storage.{Sqlite, Database, connect, close, insert_reading}
use owon_xdm1041_server.Web.Lifespan.{Lifespan, startup, shutdown}
use owon_xdm1041_server.Web.Recorder
use owon_xdm1041_server.Web.Recorder.{Recorder, run}
use owon_xdm1041_server.Web.Recorder.Recording.{conn-insert_reading}

-- Whether there is a recorder whose task runs.
abbrev pub records : Option Recorder → Bool
records none = false
records (some r) = Recorder.is_running r

module _ {F : Floats} (Q : Sqlite F) where
  conn-run :
      (conn : Q.Connection) (rs : List (Reading F)) (d : Database Q)
      → d.conn ≡ some conn
      → (run Q rs d).conn ≡ some conn
  unfolding run
  conn-run conn [] d e = e
  conn-run conn (r ∷ rs) d e =
      conn-run conn rs (insert_reading Q r d).1 (conn-insert_reading Q conn r d e)

  -- Where the database connects and its schema is made, the application starts with a recorder that
  -- runs. After any readings were recorded, of which the last are inserted while the recorder is
  -- being stopped, and where the connection closes: it stops with no recorder running, and with the
  -- connection closed once, after the last of them was inserted.
  pub lifespan_lem :
      (d : Database Q) (conn : Q.Connection) (w v u : Q.World) (rs last : List (Reading F))
      → Q.connect d.path d.world ≡ (ok conn, w)
      → Q.create_schema conn w ≡ (ok tt, v)
      → Q.commit conn v ≡ (ok tt, u)
      → let opened : Database Q = record d { conn = some conn; world = u } in
        let s : Lifespan Q = record { database = some d; recorder = none } in
        let s' = (startup Q s).1 in
        let before = run Q rs opened in
        let written = run Q last before in
        let e = shutdown Q last (record s' { database = some before }) in
        (Q.close conn written.world).0 ≡ ok tt
        → ((startup Q s).0 ≡ ok tt)
          × (s'.database ≡ some opened)
          × (records s'.recorder ≡ true)
          × (e.0 ≡ ok tt)
          × (records e.1.recorder ≡ false)
          × (e.1.database
              ≡ some (record written { conn = none; world = (Q.close conn written.world).1 }))
  unfolding startup shutdown connect close Recorder.start Recorder.stop Recorder.is_running
  lifespan_lem d conn w v u rs last c m k l =
      let opened : Database Q = record d { conn = some conn; world = u } in
      let kept = conn-run conn last (run Q rs opened) (conn-run conn rs opened refl) in
      (
        ground (arith, c, m, k),
        ground (arith, c, m, k),
        ground (arith, c, m, k),
        ground (arith, c, m, k, kept, l),
        ground (arith, c, m, k, kept, l),
        ground (arith, c, m, k, kept, l),
      )

  -- Where the database connects and its schema cannot be made, the start fails, no recorder is
  -- there, and the connection stays open: nothing closes it.
  pub startup_failed :
      (d : Database Q) (conn : Q.Connection) (w v : Q.World) (e : Error)
      → Q.connect d.path d.world ≡ (ok conn, w)
      → Q.create_schema conn w ≡ (err e, v)
      → startup Q (record { database = some d; recorder = none }) ≡ (
        err e,
        record { database = some (record d { conn = some conn; world = v }); recorder = none },
      )
  unfolding startup connect
  startup_failed d conn w v e c m = ground (arith, c, m)
