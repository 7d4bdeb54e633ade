-- ===== src/Settings.antt =====
-- src/owon_xdm1041_server/config.py, and what __main__.py makes of it. Times are in milliseconds,
-- and no number is negative.
use owon_xdm1041_server.Base.{ℕ, Bool, true, false, Text, codes, if◌then◌else◌}

pub record Settings : Type 0 where
  pub serial_port : Text
  pub baud_rate : ℕ
  pub serial_timeout : ℕ
  pub use_mock : Bool
  pub poll_interval : ℕ
  pub scpi_host : Text
  pub scpi_port : ℕ
  pub web_host : Text
  pub web_port : ℕ
  pub database_path : Text

-- The settings where neither the environment nor a file sets any.
abbrev pub defaults : Settings
defaults = record {
  serial_port = codes "/dev/owon-xdm1041";
  baud_rate = 115200;
  serial_timeout = 2000;
  use_mock = false;
  poll_interval = 500;
  scpi_host = codes "0.0.0.0";
  scpi_port = 5025;
  web_host = codes "0.0.0.0";
  web_port = 8080;
  database_path = codes "owon_xdm1041.sqlite3";
}

-- `_settings_for`, where the environment gives `loaded`.
unfoldable pub settings_for : Settings → Bool → Settings
settings_for loaded use_mock = if use_mock then record loaded { use_mock = true } else loaded
