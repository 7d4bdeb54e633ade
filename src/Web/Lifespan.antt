-- ===== src/Web/Lifespan.antt =====
-- src/owon_xdm1041_server/web/app.py: what the application's lifespan does before and after it
-- serves.
pub mod Stages
use owon_xdm1041_server.Base.{Option, none, some, List, Action, ok, resume, pure, ◌>>◌}
use owon_xdm1041_server.Base.Floats.{Floats}
use owon_xdm1041_server.Storage.{Sqlite, Database, connect, close}
use owon_xdm1041_server.Web.Recorder
use owon_xdm1041_server.Web.Recorder.{Recorder, run}
use owon_xdm1041_server.Models.{Reading}

-- The `database` that the application was built with, and the local `recorder`.
pub record Lifespan {F : Floats} (Q : Sqlite F) : Type 0 where
  pub database : Option (Database Q)
  pub recorder : Option Recorder

-- `Recorder(poller.broadcaster, database)`
abbrev pub new_recorder : Recorder
new_recorder = record { task = none; next_task = 0 }

module _ {F : Floats} (Q : Sqlite F) where
  -- `recorder = Recorder(…)` and `await recorder.start()`
  abbrev pub start_recorder : Action (Lifespan Q) (Unit {0})
  start_recorder s = (ok tt, record s { recorder = some (Recorder.start new_recorder) })

  abbrev pub startup_with : Option (Database Q) → Action (Lifespan Q) (Unit {0})
  startup_with none s = pure tt s
  startup_with (some d) s =
      let r = connect Q d in resume (λ _. start_recorder) r.0 (record s { database = some r.1 })

  -- `lifespan` up to the `yield`.
  unfoldable pub startup : Action (Lifespan Q) (Unit {0})
  startup s = startup_with s.database s

  -- What the recorder's task still inserts before its cancellation has ended it.
  abbrev pub finishing : List (Reading F) → Option (Database Q) → Option (Database Q)
  finishing last none = none
  finishing last (some d) = some (run Q last d)

  -- `await recorder.stop()`, which waits for the end of the recorder's task.
  abbrev pub stop_recorder : List (Reading F) → Option Recorder → Action (Lifespan Q) (Unit {0})
  stop_recorder last none s = pure tt s
  stop_recorder last (some r) s =
      (ok tt, record { database = finishing last s.database; recorder = some (Recorder.stop r) })

  abbrev pub close_with : Option (Database Q) → Action (Lifespan Q) (Unit {0})
  close_with none s = pure tt s
  close_with (some d) s = let r = close Q d in (r.0, record s { database = some r.1 })

  abbrev pub close_database : Action (Lifespan Q) (Unit {0})
  close_database s = close_with s.database s

  -- `lifespan` after the `yield`, where the recorder's task still inserts these readings while it
  -- is being stopped.
  unfoldable pub shutdown : List (Reading F) → Action (Lifespan Q) (Unit {0})
  shutdown last = do (λ s. stop_recorder last s.recorder s); close_database
