-- ===== src/Runner.antt =====
-- src/owon_xdm1041_server/runner.py and __main__.py: the server and the probe, from their start to
-- their stop.
pub mod Stages
pub mod Shutdown
pub mod Components
pub mod Main
mod Tests
use owon_xdm1041_server.Base.{ℕ, Bool, Result, none, Action, pure, try_finally, ◌>>=◌, ◌>>◌}
use owon_xdm1041_server.Base.Floats.{Floats}
use owon_xdm1041_server.Device.Driver.{Summary, run_probe}
use owon_xdm1041_server.Device.Manager
use owon_xdm1041_server.Device.Factory.{Stack, build_driver}
use owon_xdm1041_server.Device.Serial.{Pyserial}
use owon_xdm1041_server.Device.Transport.{Transport}
use owon_xdm1041_server.Scpi.Listener
use owon_xdm1041_server.Scpi.Listener.{Asyncio, ScpiServer}
use owon_xdm1041_server.Settings.{Settings, settings_for}
use owon_xdm1041_server.Storage.{Sqlite, Database}

-- What `serve` has in hand: the manager's transport and the SCPI server.
pub record Running (N : Asyncio) (S : Type 0) : Type 0 where
  pub device : S
  pub scpi : ScpiServer N

module _ {N : Asyncio} {S : Type 0} where
  abbrev pub on_device : {A : Type 0} → Action S A → Action (Running N S) A
  on_device m s = let r = m s.device in (r.0, record s { device = r.1 })

  abbrev pub on_scpi : {A : Type 0} → Action (ScpiServer N) A → Action (Running N S) A
  on_scpi m s = let r = m s.scpi in (r.0, record s { scpi = r.1 })

-- The parts of `build_components` that keep a state of their own, over a device that was built.
abbrev pub build_scpi : {N : Asyncio} → Settings → N.World → ScpiServer N
build_scpi settings world = record {
  host = settings.scpi_host;
  port = settings.scpi_port;
  server = none;
  world = world;
}

abbrev pub build_database : {F : Floats} {Q : Sqlite F} → Settings → Q.World → Database Q
build_database settings world = record { path = settings.database_path; conn = none; world = world }

abbrev pub build_running : {N : Asyncio} {S : Type 0} → Settings → N.World → S → Running N S
build_running settings world device = record { device = device; scpi = build_scpi settings world }

module _ (N : Asyncio) (T : Transport) (default_timeout : ℕ) where
  -- The `finally` block of `serve`.
  unfoldable pub stop_all : Action (Running N T.State) (Unit {0})
  stop_all = do on_scpi (Listener.stop N); on_device (Manager.stop T default_timeout)

  -- `serve`, where `gathered` is what the web server and the SCPI server do until one of them ends
  -- or the task is cancelled.
  unfoldable pub serve :
      Action (Running N T.State) (Unit {0}) → Action (Running N T.State) (Unit {0})
  unfolding stop_all
  serve gathered = do on_scpi (Listener.start N); try_finally gathered stop_all

module _ (F : Floats) (T : Transport) (default_timeout : ℕ) where
  -- `_probe` of __main__.py, up to the lines that it prints.
  unfoldable pub probe : Action T.State (Summary F)
  probe = do
    Manager.start T default_timeout
    try_finally (run_probe F T default_timeout) (Manager.stop T default_timeout)

module _ (F : Floats) (P : Pyserial) (world : P.World) where
  -- The device stack of `_probe`, where the environment gives `loaded`.
  abbrev pub stack_for : Settings → Bool → Stack
  stack_for loaded use_mock = build_driver F P world (settings_for loaded use_mock)

  -- The whole of `_probe`, up to the lines that it prints.
  unfoldable pub probe_command :
      (loaded : Settings) (use_mock : Bool)
      → Result (Summary F) × (stack_for loaded use_mock).transport.0.State
  unfolding probe
  probe_command loaded use_mock =
      let stack = stack_for loaded use_mock in
      probe F stack.transport.0 stack.default_timeout stack.transport.1

  -- The whole of `serve`, with the network as it is and what is gathered.
  unfoldable pub serve_command :
      (N : Asyncio) (loaded : Settings) (use_mock : Bool)
      → N.World
      → Action (Running N (stack_for loaded use_mock).transport.0.State) (Unit {0})
      → Result (Unit {0}) × Running N (stack_for loaded use_mock).transport.0.State
  unfolding serve
  serve_command N loaded use_mock network gathered =
      let stack = stack_for loaded use_mock in
      serve N stack.transport.0 stack.default_timeout gathered
        (build_running (settings_for loaded use_mock) network stack.transport.1)
