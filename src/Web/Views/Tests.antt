-- ===== src/Web/Views/Tests.antt =====
-- The theorems about the HTML handlers, over the mock and an application without a store.
use owon_xdm1041_server.Base.{◌≡◌, refl, true, none, ok, err, runtime_error, pure, ◌>>=◌, codes}
use owon_xdm1041_server.Base.Symbolic.{symbolic}
use owon_xdm1041_server.Device.Mock.{MockTransport, new_mock, mock_transport}
use owon_xdm1041_server.Device.Transport.{Transport}
use owon_xdm1041_server.Storage.{Sqlite}
use owon_xdm1041_server.Web.Api.{App, set_function, set_rate, enable_auto_range}
use owon_xdm1041_server.Web.Views.{
  control_set_function, control_set_rate, control_auto_range, scpi_docs_page,
}
use owon_xdm1041_server.Web.Views.Agreement.{partial, control-eq-json}
use owon_xdm1041_server.Base.Numerals.{decimal, digits}

abbrev no_store : Sqlite symbolic
no_store = record {
  World = Unit {0};
  Connection = Unit {0};
  connect = λ path w. (ok tt, w);
  create_schema = λ c w. (ok tt, w);
  commit = λ c w. (ok tt, w);
  close = λ c w. (ok tt, w);
  insert = λ c r w. (err runtime_error, w);
  select = λ c clauses params limit w. (err runtime_error, w);
  select_aggregate = λ c columns clauses params w. (ok none, w);
  select_count = λ c w. (ok none, w);
}

abbrev meter : Transport
meter = mock_transport symbolic

abbrev app : App no_store MockTransport
app = record { device = record new_mock { is_open = true }; store = none }

control-eq-json_example :
    (control_set_function no_store meter 2000 (codes "RESISTANCE") (codes "KITS90") app
      ≡ (do
        out ← set_function no_store meter 2000 (codes "RESISTANCE") (codes "KITS90")
        pure (partial out))
          app)
    × (control_set_rate no_store meter 2000 (codes "RESISTANCE") app
        ≡ (do out ← set_rate no_store meter 2000 (codes "RESISTANCE"); pure (partial out)) app)
    × (control_auto_range no_store meter 2000 app
        ≡ (do out ← enable_auto_range no_store meter 2000; pure (partial out)) app)
control-eq-json_example =
    control-eq-json no_store meter 2000 (codes "RESISTANCE") (codes "KITS90") app

-- The SCPI page where the browser names no host.
scpi_docs_page_test :
    (scpi_docs_page none (codes "0.0.0.0") 5025).context.resource
    ≡ codes "TCPIP::0.0.0.0::5025::SOCKET"
unfolding scpi_docs_page decimal digits
scpi_docs_page_test = refl
