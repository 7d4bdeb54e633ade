-- ===== src/Runner/Components.antt =====
-- src/owon_xdm1041_server/runner.py and web/app.py: `build_components` and what `create_app` puts
-- into the application's state. An object is a number, under which a store has what it refers to.
pub mod Shared
mod Tests
use owon_xdm1041_server.Base.{ℕ, suc, ◌+◌, Option, some, Text, ◌==◌, if◌then◌else◌}
use owon_xdm1041_server.Base.Floats.{Floats}
use owon_xdm1041_server.Device.Factory.{Stack, build_driver}
use owon_xdm1041_server.Device.Serial.{Pyserial}
use owon_xdm1041_server.Settings.{Settings}

pub record PollerObject : Type 0 where
  pub driver : ℕ
  pub broadcaster : ℕ
  pub interval : ℕ

-- `app.state`
pub record AppState : Type 0 where
  pub driver : ℕ
  pub poller : ℕ
  pub db : Option ℕ
  pub scpi_host : Text
  pub scpi_port : ℕ

pub record ScpiObject : Type 0 where
  pub manager : ℕ
  pub host : Text
  pub port : ℕ

-- The store: a driver refers to its manager, a database to its path. `fresh` is the next number.
pub record Objects : Type 1 where
  pub fresh : ℕ
  pub managers : ℕ → Stack
  pub drivers : ℕ → ℕ
  pub pollers : ℕ → PollerObject
  pub databases : ℕ → Text
  pub apps : ℕ → AppState
  pub scpis : ℕ → ScpiObject

pub record Components : Type 0 where
  pub manager : ℕ
  pub driver : ℕ
  pub poller : ℕ
  pub database : ℕ
  pub app : ℕ
  pub scpi : ℕ

abbrev pub put {ℓ} : {A : Type ℓ} → ℕ → A → (ℕ → A) → ℕ → A
put n a objects m = if n == m then a else objects m

-- `DeviceManager(transport, …)` and `Driver(manager)`
abbrev pub new_stack : Stack → Objects → (ℕ × ℕ) × Objects
new_stack stack o = (
  (o.fresh, suc o.fresh),
  record o {
    fresh = suc (suc o.fresh);
    managers = put o.fresh stack o.managers;
    drivers = put (suc o.fresh) o.fresh o.drivers;
  },
)

-- `Poller(driver, interval=…)`, which makes its broadcaster.
abbrev pub new_poller : ℕ → ℕ → Objects → ℕ × Objects
new_poller driver interval o = (
  o.fresh,
  record o {
    fresh = suc (suc o.fresh);
    pollers =
        put o.fresh (record { driver = driver; broadcaster = suc o.fresh; interval = interval })
          o.pollers;
  },
)

abbrev pub new_database : Text → Objects → ℕ × Objects
new_database path o =
    (o.fresh, record o { fresh = suc o.fresh; databases = put o.fresh path o.databases })

-- `create_app`
abbrev pub create_app : ℕ → ℕ → Option ℕ → Text → ℕ → Objects → ℕ × Objects
create_app driver poller database scpi_host scpi_port o = (
  o.fresh,
  record o {
    fresh = suc o.fresh;
    apps =
        put o.fresh
          (record {
            driver = driver;
            poller = poller;
            db = database;
            scpi_host = scpi_host;
            scpi_port = scpi_port;
          })
          o.apps;
  },
)

abbrev pub new_scpi : ℕ → Text → ℕ → Objects → ℕ × Objects
new_scpi manager host port o = (
  o.fresh,
  record o {
    fresh = suc o.fresh;
    scpis = put o.fresh (record { manager = manager; host = host; port = port }) o.scpis;
  },
)

module _ (F : Floats) (P : Pyserial) (world : P.World) where
  unfoldable pub build_components : Settings → Objects → Components × Objects
  build_components settings o =
      let ((manager, driver), o₁) = new_stack (build_driver F P world settings) o in
      let (poller, o₂) = new_poller driver settings.poll_interval o₁ in
      let (database, o₃) = new_database settings.database_path o₂ in
      let (app, o₄) =
        create_app driver poller (some database) settings.scpi_host settings.scpi_port o₃ in
      let (scpi, o₅) = new_scpi manager settings.scpi_host settings.scpi_port o₄ in
      (
        record {
          manager = manager;
          driver = driver;
          poller = poller;
          database = database;
          app = app;
          scpi = scpi;
        },
        o₅,
      )
