-- ===== src/Web/Api/Tests.antt =====
-- The theorems about the handlers at concrete requests.
use owon_xdm1041_server.Base.{◌≡◌, refl, none, some, true, List, [], ◌∷◌, ◌++◌, length, ok, codes}
use owon_xdm1041_server.Base.Symbolic.{symbolic, symbolic-IsPrintable}
use owon_xdm1041_server.Device.Commands.{diode, resistance, unit_for}
use owon_xdm1041_server.Device.Mock.{MockTransport, new_mock, mock_transport}
use owon_xdm1041_server.Device.Driver.Exchange.{IsReady}
use owon_xdm1041_server.Device.Transport.{Transport}
use owon_xdm1041_server.Models.{Reading, Aggregate}
use owon_xdm1041_server.Storage.{
  Sqlite, Database, insert_reading, aggregate, db, filters, empty_aggregate,
}
use owon_xdm1041_server.Web.Api.{App, measurement_smoothed}
use owon_xdm1041_server.Web.Api.Schema.{smoothed_out}
use owon_xdm1041_server.Web.Api.Answers.{ticked, measurement_smoothed_answer}
use owon_xdm1041_server.Web.Poller.Sampling.{next_reading}

-- A table in memory that counts what is in it.
abbrev memory : Sqlite symbolic
memory = record {
  World = List (Reading symbolic);
  Connection = Unit {0};
  connect = λ path w. (ok tt, w);
  create_schema = λ c w. (ok tt, w);
  commit = λ c w. (ok tt, w);
  close = λ c w. (ok tt, w);
  insert = λ c r w. (ok tt, w ++ (r ∷ []));
  select = λ c clauses params limit w. (ok w, w);
  select_aggregate = λ c columns clauses params w. (
    ok (
        some (record {
          n = length w;
          mean = none;
          lo = none;
          hi = none;
          first_ts = none;
          last_ts = none;
        })),
    w,
  );
  select_count = λ c w. (ok (some (length w)), w);
}

abbrev meter : Transport
meter = mock_transport symbolic

-- An open meter in diode mode.
abbrev bench : MockTransport
bench = record new_mock { is_open = true; function = diode }

bench-IsReady : IsReady bench
bench-IsReady = record { open_now = refl; sound = refl }

abbrev table : List (Reading symbolic) → Database memory
table rows = record { path = codes "owon_xdm1041.sqlite3"; conn = some tt; world = rows }

abbrev storing : App memory MockTransport
storing = record { device = bench; store = some (table []) }

abbrev new_row : Reading symbolic
new_row = next_reading symbolic bench (codes "100")

abbrev one_row : Aggregate symbolic
one_row = record (empty_aggregate symbolic) { count = 1 }

measurement_smoothed_answer_example :
    measurement_smoothed memory meter 2000
      (codes "60")
      (some (codes "RESISTANCE"))
      (codes "100")
      storing
    ≡ (
      ok (smoothed_out (codes "RES") (unit_for diode) (codes "60") one_row),
      record { device = ticked bench; store = some (table (new_row ∷ [])) },
    )
unfolding insert_reading aggregate db filters
measurement_smoothed_answer_example =
    measurement_smoothed_answer memory 2000 symbolic-IsPrintable resistance (codes "60")
      (codes "100") storing (table []) (table (new_row ∷ [])) (table (new_row ∷ [])) one_row
      bench-IsReady refl refl refl refl
