-- ===== src/Runner/Components/Shared.antt =====
-- One manager behind every interface.
use owon_xdm1041_server.Base.{◌≡◌, ◌≢◌, ℕ, ◌≤◌, some, arith}
use owon_xdm1041_server.Base.Floats.{Floats}
use owon_xdm1041_server.Device.Factory.{build_driver}
use owon_xdm1041_server.Device.Serial.{Pyserial}
use owon_xdm1041_server.Runner.Components.{Objects, Components, build_components}
use owon_xdm1041_server.Settings.{Settings}

-- The manager that the interfaces reach is one, and the application and the socket agree.
pub record IsShared (c : Components) (o : Objects) : Type 0 where
  pub of_driver : o.drivers c.driver ≡ c.manager
  pub of_poller : o.drivers (o.pollers c.poller).driver ≡ c.manager
  pub of_app : o.drivers (o.apps c.app).driver ≡ c.manager
  pub of_app_poller : o.drivers (o.pollers (o.apps c.app).poller).driver ≡ c.manager
  pub of_scpi : (o.scpis c.scpi).manager ≡ c.manager
  pub same_poller : (o.apps c.app).poller ≡ c.poller
  pub same_store : (o.apps c.app).db ≡ some c.database
  pub same_host : (o.apps c.app).scpi_host ≡ (o.scpis c.scpi).host
  pub same_port : (o.apps c.app).scpi_port ≡ (o.scpis c.scpi).port

module _ (F : Floats) (P : Pyserial) (world : P.World) where
  -- Whatever objects there are: the SCPI socket, the web application, its poller and the driver
  -- that are built all lead to one manager, which is new, has the transport and the timeout of the
  -- settings, and is the only one that is made; the application shows the address of the socket,
  -- and keeps the store and the poller of the components.
  pub build_components-IsShared :
      (settings : Settings) (o : Objects)
      → let (c, o') = build_components F P world settings o in
        IsShared c o'
        × (o.fresh ≤ c.manager)
        × (o'.managers c.manager ≡ build_driver F P world settings)
        × ((n : ℕ) → n ≢ c.manager → o'.managers n ≡ o.managers n)
  unfolding build_components
  build_components-IsShared settings o = (
    record {
      of_driver = ground arith;
      of_poller = ground arith;
      of_app = ground arith;
      of_app_poller = ground arith;
      of_scpi = ground arith;
      same_poller = ground arith;
      same_store = ground arith;
      same_host = ground arith;
      same_port = ground arith;
    },
    omega arith,
    ground arith,
    λ n other. ground arith,
  )
