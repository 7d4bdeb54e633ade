-- ===== src/Runner/Components/Tests.antt =====
-- The theorem about the components, built from the default settings where nothing was built before.
use owon_xdm1041_server.Base.{◌≡◌, ◌≢◌, ℕ, ◌≤◌, none, []}
use owon_xdm1041_server.Base.Symbolic.{symbolic}
use owon_xdm1041_server.Device.Factory.{build_driver}
use owon_xdm1041_server.Device.Serial.Echo.{echo}
use owon_xdm1041_server.Runner.Components.{Objects, build_components}
use owon_xdm1041_server.Runner.Components.Shared.{IsShared, build_components-IsShared}
use owon_xdm1041_server.Settings.{defaults}

abbrev nothing : Objects
nothing = record {
  fresh = 0;
  managers = λ n. build_driver symbolic echo [] defaults;
  drivers = λ n. 0;
  pollers = λ n. record { driver = 0; broadcaster = 0; interval = 0 };
  databases = λ n. [];
  apps = λ n. record { driver = 0; poller = 0; db = none; scpi_host = []; scpi_port = 0 };
  scpis = λ n. record { manager = 0; host = []; port = 0 };
}

build_components-IsShared_example :
    let (c, o) = build_components symbolic echo [] defaults nothing in
    IsShared c o
    × (0 ≤ c.manager)
    × (o.managers c.manager ≡ build_driver symbolic echo [] defaults)
    × ((n : ℕ) → n ≢ c.manager → o.managers n ≡ nothing.managers n)
build_components-IsShared_example = build_components-IsShared symbolic echo [] defaults nothing
