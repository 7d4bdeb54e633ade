-- ===== src/Web/Recorder.antt =====
-- src/owon_xdm1041_server/web/recorder.py: each reading that the recorder's subscription gives is
-- inserted into the store.
pub mod Recording
pub mod Readback
pub mod Pipeline
mod Tests
use owon_xdm1041_server.Base.{ℕ, suc, Bool, true, false, Option, none, some, List, [], ◌∷◌}
use owon_xdm1041_server.Base.Floats.{Floats}
use owon_xdm1041_server.Models.{Reading}
use owon_xdm1041_server.Storage.{Sqlite, Database, insert_reading}

pub record Recorder : Type 0 where
  pub task : Option ℕ
  pub next_task : ℕ

unfoldable pub is_running : Recorder → Bool
is_running r = elim r.task [ none ↦ false | some t ↦ true ]

abbrev create_task : Option ℕ → Recorder → Recorder
create_task none r = record { task = some r.next_task; next_task = suc r.next_task }
create_task (some t) r = r

unfoldable pub start : Recorder → Recorder
start r = create_task r.task r

unfoldable pub stop : Recorder → Recorder
stop r = record r { task = none }

-- The loop of `_run` over the readings that arrive: an exception is logged, and the loop goes on.
unfoldable pub run : {F : Floats} (Q : Sqlite F) → List (Reading F) → Database Q → Database Q
run Q [] d = d
run Q (reading ∷ readings) d = run Q readings (insert_reading Q reading d).1
