-- ===== src/Web/Views.antt =====
-- src/owon_xdm1041_server/web/views.py: the HTML handlers. A page is its template and the values
-- that it is rendered with.
pub mod Agreement
mod Tests
use owon_xdm1041_server.Base.{
  ℕ, Bool, Option, none, some, List, [], ◌∷◌, ◌++◌, map, Action, pure, lift, ◌>>=◌, ◌>>◌, Text,
  codes,
}
use owon_xdm1041_server.Base.Floats.{Floats}
use owon_xdm1041_server.Device.Commands.{Rate, slow, medium, fast, rates}
use owon_xdm1041_server.Device.Driver
use owon_xdm1041_server.Device.Driver.{DeviceState}
use owon_xdm1041_server.Device.Transport.{Transport}
use owon_xdm1041_server.Storage.{Sqlite}
use owon_xdm1041_server.Web.Api.{App, on_meter}
use owon_xdm1041_server.Web.Api.Schema.{
  function_name, function_labels, rate_name, parse_function, parse_rate,
}
use owon_xdm1041_server.Base.Numerals.{decimal}

-- The dictionary `state`.
pub record StateContext : Type 0 where
  pub function : Text
  pub rate : Text
  pub auto_range : Bool
  pub range : Option Text

pub record ControlContext : Type 0 where
  pub functions : List (Text × Text)
  pub rates : List (Text × Text)
  pub state : StateContext

pub record ScpiContext : Type 0 where
  pub scpi_host : Text
  pub scpi_port : ℕ
  pub resource : Text

pub record Page (C : Type 0) : Type 0 where
  pub template : Text
  pub context : C

-- `_RATE_LABELS`
abbrev pub rate_label : Rate → Text
rate_label slow = codes "Slow"
rate_label medium = codes "Medium"
rate_label fast = codes "Fast"

-- The options of the two lists on the control page: a name and its label.
abbrev pub function_choices : List (Text × Text)
function_choices = map (λ e. (function_name e.0, e.1)) function_labels

abbrev pub rate_choices : List (Text × Text)
rate_choices = map (λ r. (rate_name r, rate_label r)) rates

abbrev pub context_for : DeviceState → StateContext
context_for state = record {
  function = function_name state.function;
  rate = rate_name state.rate;
  auto_range = state.auto_range;
  range = state.range;
}

-- `_state_response`
abbrev pub state_response : StateContext → Page StateContext
state_response state = record { template = codes "_state.html"; context = state }

-- The handlers `dashboard`, `history_page` and `api_docs_page`.
abbrev pub dashboard : Page (Unit {0})
dashboard = record { template = codes "dashboard.html"; context = tt }

abbrev pub history_page : Page (Unit {0})
history_page = record { template = codes "history.html"; context = tt }

abbrev pub api_docs_page : Page (Unit {0})
api_docs_page = record { template = codes "api.html"; context = tt }

-- `hostname or scpi_host`
abbrev pub host_or : Option Text → Text → Text
host_or none scpi_host = scpi_host
host_or (some []) scpi_host = scpi_host
host_or (some (c ∷ hostname)) scpi_host = c ∷ hostname

-- The name of a socket for VISA.
abbrev pub resource_for : Text → ℕ → Text
resource_for host port =
    codes "TCPIP::" ++ (host ++ (codes "::" ++ (decimal port ++ codes "::SOCKET")))

unfoldable pub scpi_docs_page : Option Text → Text → ℕ → Page ScpiContext
scpi_docs_page hostname scpi_host scpi_port = record {
  template = codes "scpi.html";
  context = record {
    scpi_host = scpi_host;
    scpi_port = scpi_port;
    resource = resource_for (host_or hostname scpi_host) scpi_port;
  };
}

module _ {F : Floats} (Q : Sqlite F) (T : Transport) (default_timeout : ℕ) where
  -- `_state_context`
  unfoldable pub state_context : Action (App Q T.State) StateContext
  state_context = do
    state ← on_meter Q T default_timeout (Driver.read_state T default_timeout)
    pure (context_for state)

  unfoldable pub control : Action (App Q T.State) (Page ControlContext)
  unfolding state_context
  control = do
    state ← state_context
    pure (record {
      template = codes "control.html";
      context = record { functions = function_choices; rates = rate_choices; state = state };
    })

  unfoldable pub control_set_function : Text → Text → Action (App Q T.State) (Page StateContext)
  unfolding state_context
  control_set_function name rtd_type = do
    function ← lift (parse_function name)
    on_meter Q T default_timeout (Driver.set_function T default_timeout function rtd_type)
    state ← state_context
    pure (state_response state)

  unfoldable pub control_set_rate : Text → Action (App Q T.State) (Page StateContext)
  unfolding state_context
  control_set_rate name = do
    rate ← lift (parse_rate name)
    on_meter Q T default_timeout (Driver.set_rate T default_timeout rate)
    state ← state_context
    pure (state_response state)

  unfoldable pub control_auto_range : Action (App Q T.State) (Page StateContext)
  unfolding state_context
  control_auto_range = do
    on_meter Q T default_timeout (Driver.enable_auto_range T default_timeout)
    state ← state_context
    pure (state_response state)
