-- ===== src/Models.antt =====
-- src/owon_xdm1041_server/models.py: the readings that the web layer and the storage share.
use owon_xdm1041_server.Base.{ℕ, Option, Text}
use owon_xdm1041_server.Base.Floats.{Floats}
use owon_xdm1041_server.Device.Commands.{function_value}
use owon_xdm1041_server.Device.Driver.{Measurement}

pub record Reading (F : Floats) : Type 0 where
  pub timestamp : F.Float
  pub function : Text
  pub value : F.Float
  pub unit : Text

-- `Reading.from_measurement`
abbrev pub from_measurement : (F : Floats) → Measurement F → F.Float → Reading F
from_measurement F m timestamp = record {
  timestamp = timestamp;
  function = function_value m.function;
  value = m.value;
  unit = m.unit;
}

pub record Aggregate (F : Floats) : Type 0 where
  pub count : ℕ
  pub mean : Option F.Float
  pub min : Option F.Float
  pub max : Option F.Float
  pub first_ts : Option F.Float
  pub last_ts : Option F.Float
