-- ===== src/Web/Views/Agreement.antt =====
-- The HTML handlers beside the JSON handlers, and the choices on the control page.
use owon_xdm1041_server.Base.{
  ◌≡◌, refl, subst, ℕ, List, [], ◌∷◌, map, Result, ok, err, resume, pure, ◌>>=◌, Text, codes,
  text_eq, length, if◌then◌else◌, arith, All,
}
use owon_xdm1041_server.Base.Floats.{Floats}
use owon_xdm1041_server.Device.Commands
use owon_xdm1041_server.Device.Commands.{Function, Rate, slow, rates}
use owon_xdm1041_server.Device.Driver
use owon_xdm1041_server.Device.Driver.{DeviceState}
use owon_xdm1041_server.Device.Transport.{Transport}
use owon_xdm1041_server.Storage.{Sqlite}
use owon_xdm1041_server.Web.Api.{App, read_state, set_function, set_rate, enable_auto_range}
use owon_xdm1041_server.Web.Api.Names.{parse_function-name, parse_rate-name}
use owon_xdm1041_server.Web.Api.Schema.{
  StateOut, function_labels, function_name, rate_name, parse_function, parse_rate,
}
use owon_xdm1041_server.Web.Views.{
  StateContext, ControlContext, Page, function_choices, rate_choices, rate_label, context_for,
  state_response, state_context, control, control_set_function, control_set_rate,
  control_auto_range,
}

-- The state partial, for an answer of the JSON handlers.
abbrev pub partial : StateOut → Page StateContext
partial out = state_response (record {
  function = out.function;
  rate = out.rate;
  auto_range = out.auto_range;
  range = out.range;
})

-- The labels of the choices that a page shows as selected, where `name` is the state's.
abbrev pub selected : Text → List (Text × Text) → List Text
selected name [] = []
selected name (choice ∷ choices) =
    if text_eq choice.0 name then choice.1 ∷ selected name choices else selected name choices

-- The page `control` for a state of the meter.
abbrev pub page_for : DeviceState → Page ControlContext
page_for state = record {
  template = codes "control.html";
  context = record {
    functions = function_choices;
    rates = rate_choices;
    state = context_for state;
  };
}

shown_lem :
    {S : Type 0} (r : Result DeviceState) (s : S) (page : Page ControlContext)
    → let q = resume (λ state. pure (context_for state)) r s in
      (resume
          (λ state. pure (record {
            template = codes "control.html";
            context = record { functions = function_choices; rates = rate_choices; state = state };
          }))
          q.0
          q.1).0
        ≡ ok page
      → (state : DeviceState) × (page_for state ≡ page)
shown_lem (ok state) s page h = (state, cc)
shown_lem (err e) s page h = absurd cc

one_function : (f : Function) → length (selected (function_name f) function_choices) ≡ 1
unfolding text_eq
one_function Commands.volt_dc = refl
one_function _ = refl

one_rate : (r : Rate) → length (selected (rate_name r) rate_choices) ≡ 1
unfolding text_eq
one_rate slow = refl
one_rate _ = refl

names_accepted :
    (labels : List (Function × Text))
    → All {A = Text × Text}
        (λ choice. (f : Function) × (parse_function choice.0 ≡ ok f))
        (map (λ e. (function_name e.0, e.1)) labels)
names_accepted [] = tt
names_accepted (e ∷ labels) = ((e.0, parse_function-name e.0), names_accepted labels)

rates_accepted :
    (members : List Rate)
    → All {A = Text × Text}
        (λ choice. (r : Rate) × (parse_rate choice.0 ≡ ok r))
        (map (λ r. (rate_name r, rate_label r)) members)
rates_accepted [] = tt
rates_accepted (r ∷ members) = ((r, parse_rate-name r), rates_accepted members)

-- What the lists on the control page are for: what they offer is accepted, everything there is to
-- choose is offered once, and the state on the page is one of the choices.
pub record IsUsable (context : ControlContext) : Type 0 where
  pub accepted_functions :
      All {A = Text × Text}
        (λ choice. (f : Function) × (parse_function choice.0 ≡ ok f))
        context.functions
  pub accepted_rates :
      All {A = Text × Text} (λ choice. (r : Rate) × (parse_rate choice.0 ≡ ok r)) context.rates
  pub every_function : (f : Function) → length (selected (function_name f) context.functions) ≡ 1
  pub every_rate : (r : Rate) → length (selected (rate_name r) context.rates) ≡ 1
  pub selected_function : (f : Function) × (context.state.function ≡ function_name f)
  pub selected_rate : (r : Rate) × (context.state.rate ≡ rate_name r)

page_for-IsUsable : (state : DeviceState) → IsUsable (page_for state).context
page_for-IsUsable state = record {
  accepted_functions = names_accepted function_labels;
  accepted_rates = rates_accepted rates;
  every_function = one_function;
  every_rate = one_rate;
  selected_function = (state.function, refl);
  selected_rate = (state.rate, refl);
}

module _ {F : Floats} (Q : Sqlite F) (T : Transport) (default_timeout : ℕ) where
  -- For every transport, store and state of the application: the HTML handlers that set a function
  -- and a rate by name and that turn auto-range on leave what the JSON handlers leave, raise what
  -- they raise, and else show their answer in the state partial.
  pub control-eq-json :
      (name rtd_type : Text) (s : App Q T.State)
      → (control_set_function Q T default_timeout name rtd_type s
          ≡ (do out ← set_function Q T default_timeout name rtd_type; pure (partial out)) s)
        × (control_set_rate Q T default_timeout name s
            ≡ (do out ← set_rate Q T default_timeout name; pure (partial out)) s)
        × (control_auto_range Q T default_timeout s
            ≡ (do out ← enable_auto_range Q T default_timeout; pure (partial out)) s)
  unfolding control_set_function control_set_rate control_auto_range set_function set_rate
      enable_auto_range state_context read_state
  control-eq-json name rtd_type s = (ground arith, ground arith, ground arith)

  -- Over every transport: where `control` shows a page, its template is the control page, each
  -- function and each rate that it offers is a name that the handlers of its forms accept, each
  -- function and each rate of the meter is offered exactly once, and the state on it is one of
  -- those choices.
  control_page :
      (s : App Q T.State) (page : Page ControlContext)
      → (control Q T default_timeout s).0 ≡ ok page
      → (page.template ≡ codes "control.html") × IsUsable page.context
  unfolding control state_context
  control_page s page shown =
      let r = Driver.read_state T default_timeout s.device in
      let (state, same) = shown_lem r.0 (record s { device = r.1 }) page shown in
      subst (λ page. (page.template ≡ codes "control.html") × IsUsable page.context) same
        (refl, page_for-IsUsable state)
