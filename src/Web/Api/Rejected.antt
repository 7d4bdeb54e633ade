-- ===== src/Web/Api/Rejected.antt =====
-- The requests that the handlers refuse.
use owon_xdm1041_server.Base.{
  ◌≡◌, ◌≢◌, ℕ, true, false, Option, none, some, err, http_exception, Text, arith,
}
use owon_xdm1041_server.Base.Floats.{Floats}
use owon_xdm1041_server.Device.Commands.{Function, Rate}
use owon_xdm1041_server.Device.Transport.{Transport}
use owon_xdm1041_server.Storage.{Sqlite, Database, Limit}
use owon_xdm1041_server.Web.Api.{
  App, measurement_smoothed, status, set_function, set_rate, history, get_database,
  validate_seconds,
}
use owon_xdm1041_server.Web.Api.Names.{parse_function-unknown, parse_rate-unknown}
use owon_xdm1041_server.Web.Api.Schema.{function_name, rate_name}

module _ {F : Floats} (Q : Sqlite F) (T : Transport) (default_timeout : ℕ) where
  -- A window that is not positive is refused with 422 by both handlers that take one, before the
  -- meter or the store is touched.
  seconds_refused :
      (seconds now : F.Float) (function : Option Text) (s : App Q T.State)
      → F.non_positive seconds ≡ true
      → (measurement_smoothed Q T default_timeout seconds function now s
          ≡ (err (http_exception 422), s))
        × (status Q T default_timeout seconds now s ≡ (err (http_exception 422), s))
  unfolding measurement_smoothed status validate_seconds
  seconds_refused seconds now function s h = (ground (arith, h), ground (arith, h))

  -- Where there is no store, the handlers that need one refuse with 503, before the meter is
  -- touched; the window of the smoothed measurement is positive.
  no_store_refused :
      (seconds now : F.Float) (function : Option Text) (since until : Option F.Float)
      (limit : Limit) (s : App Q T.State)
      → F.non_positive seconds ≡ false
      → s.store ≡ none
      → (measurement_smoothed Q T default_timeout seconds function now s
          ≡ (err (http_exception 503), s))
        × (history Q T default_timeout since until function limit s ≡ (err (http_exception 503), s))
  unfolding measurement_smoothed history validate_seconds get_database
  no_store_refused seconds now function since until limit s h e =
      (ground (arith, h, e), ground (arith, e))

  -- A name that no function has is refused with 422 by the handlers that set the function and,
  -- where there is a store, read the history, and one that no rate has by the handler that sets the
  -- rate; the meter and the store are not touched.
  name_refused :
      (name rate rtd_type : Text) (since until : Option F.Float) (limit : Limit) (d : Database Q)
      (s : App Q T.State)
      → s.store ≡ some d
      → ((f : Function) → name ≢ function_name f)
      → ((r : Rate) → rate ≢ rate_name r)
      → (set_function Q T default_timeout name rtd_type s ≡ (err (http_exception 422), s))
        × (set_rate Q T default_timeout rate s ≡ (err (http_exception 422), s))
        × (history Q T default_timeout since until (some name) limit s
            ≡ (err (http_exception 422), s))
  unfolding set_function set_rate history get_database
  name_refused name rate rtd_type since until limit d s e unknown unknown_rate = (
    ground (arith, parse_function-unknown name unknown),
    ground (arith, parse_rate-unknown rate unknown_rate),
    ground (arith, parse_function-unknown name unknown, e),
  )
