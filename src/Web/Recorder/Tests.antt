-- ===== src/Web/Recorder/Tests.antt =====
-- The theorems about what is stored and read back, over a table that is read only where its rows
-- are in the order of their times.
use mathlib.Core.List.{reverse, reverse_perm, Perm}
use owon_xdm1041_server.Base.{
  ◌≡◌, refl, Bool, ◌+◌, length, true, false, ◌&&◌, none, some, Result, ok, err, runtime_error, Text,
  codes, List, [], ◌∷◌, ◌++◌, All, if◌then◌else◌, arith,
}
use owon_xdm1041_server.Base.Symbolic.{symbolic}
use owon_xdm1041_server.Models.{Reading}
use owon_xdm1041_server.Storage.{
  Sqlite, Database, Limit, unlimited, Clause, Value, filters, insert_reading, history,
}
use owon_xdm1041_server.Storage.History.{
  keep_if, limited, IsDescending, IsAscending, IsSelection, Evaluates,
}
use owon_xdm1041_server.Storage.Queries.{all_hold, in_window}
use owon_xdm1041_server.Web.Recorder.{run}
use owon_xdm1041_server.Web.Recorder.Recording.{Appends, inserted}
use owon_xdm1041_server.Web.Recorder.Readback.{recorded_history}
use owon_xdm1041_server.Device.Mock.{MockTransport, new_mock, mock_transport}
use owon_xdm1041_server.Device.Transport.{Transport}
use owon_xdm1041_server.Web.Broadcast.{Broadcaster}
use owon_xdm1041_server.Web.Broadcast.Listening.{IsListening}
use owon_xdm1041_server.Web.Broadcast.Stream.{IsSubsequence, done}
use owon_xdm1041_server.Web.Poller.{Live}
use owon_xdm1041_server.Web.Recorder.Pipeline.{
  Event, enters, polls, records, leaves, Keeps, run_events, begin,
}
use owon_xdm1041_server.Web.Recorder.Pipeline.Stored.{run_events-stored}

abbrev all_until : Reading symbolic → List (Reading symbolic) → Bool
all_until x [] = true
all_until x (y ∷ ys) = symbolic.le y.timestamp x.timestamp && all_until x ys

abbrev descending : List (Reading symbolic) → Bool
descending [] = true
descending (x ∷ xs) = all_until x xs && descending xs

all_until-All :
    (x : Reading symbolic) (ys : List (Reading symbolic))
    → all_until x ys ≡ true
    → All (λ y. symbolic.le y.timestamp x.timestamp ≡ true) ys
all_until-All x [] h = tt
all_until-All x (y ∷ ys) h = (ground arith, all_until-All x ys (ground arith))

descending-IsDescending :
    (xs : List (Reading symbolic)) → descending xs ≡ true → IsDescending symbolic xs
descending-IsDescending [] h = tt
descending-IsDescending (x ∷ xs) h =
    (all_until-All x xs (ground arith), descending-IsDescending xs (ground arith))

abbrev passing :
    List Clause → List (Value symbolic) → List (Reading symbolic) → List (Reading symbolic)
passing clauses params table = reverse (keep_if (all_hold symbolic clauses params) table)

abbrev rows_in : Limit → List (Reading symbolic) → Result (List (Reading symbolic))
rows_in limit xs = if descending xs then ok (limited limit xs) else err runtime_error

abbrev in_order : Sqlite symbolic
in_order = record {
  World = List (Reading symbolic);
  Connection = Unit {0};
  connect = λ path w. (ok tt, w);
  create_schema = λ c w. (ok tt, w);
  commit = λ c w. (ok tt, w);
  close = λ c w. (ok tt, w);
  insert = λ c r w. (ok tt, w ++ (r ∷ []));
  select = λ c clauses params limit w. (rows_in limit (passing clauses params w), w);
  select_aggregate = λ c columns clauses params w. (ok none, w);
  select_count = λ c w. (ok none, w);
}

abbrev in_order-Appends : Appends in_order
in_order-Appends = record {
  table = λ c w. w;
  insert_rows = λ c r w. refl;
  commit_rows = λ c w. refl;
}

rows_in-IsSelection :
    (clauses : List Clause) (params : List (Value symbolic)) (limit : Limit)
    (table rows : List (Reading symbolic)) (b : Bool)
    → descending (passing clauses params table) ≡ b
    → rows_in limit (passing clauses params table) ≡ ok rows
    → IsSelection symbolic (all_hold symbolic clauses params) table limit rows
rows_in-IsSelection clauses params limit table rows true ordered e = record {
  arranged = passing clauses params table;
  perm = reverse_perm (keep_if (all_hold symbolic clauses params) table);
  descending = descending-IsDescending (passing clauses params table) ordered;
  first_rows = ground arith;
}
rows_in-IsSelection clauses params limit table rows false other e = absurd (ground arith)

abbrev in_order-Evaluates : Evaluates symbolic in_order
in_order-Evaluates = record {
  table = λ c w. w;
  select_rows = λ c clauses params limit w rows e.
      rows_in-IsSelection clauses params limit w rows (descending (passing clauses params w)) refl
        e;
}

abbrev reading : Text → Reading symbolic
reading time = record {
  timestamp = time;
  function = codes "VOLT";
  value = codes "3.3";
  unit = codes "V";
}

abbrev store : Database in_order
store = record { path = []; conn = some tt; world = reading (codes "1") ∷ [] }

abbrev stream : List (Reading symbolic)
stream = reading (codes "2") ∷ reading (codes "3") ∷ []

abbrev rows : List (Reading symbolic)
rows = reading (codes "3") ∷ reading (codes "2") ∷ reading (codes "1") ∷ []

recorded_history_example :
    ((history in_order none none none unlimited (run in_order stream store)).0 ≡ ok (reverse rows))
    × Perm (reverse rows) (
        keep_if (in_window symbolic none none none) (
          in_order-Appends.table tt store.world
          ++ inserted in_order in_order-Appends tt stream store))
    × IsAscending symbolic (reverse rows)
unfolding run insert_reading filters
recorded_history_example =
    recorded_history in_order in_order-Evaluates in_order-Appends tt (λ w. refl) stream store none
      none none rows refl refl

-- The recorder's subscription, and one viewer who comes and goes.
abbrev subscribed : Broadcaster (Reading symbolic)
subscribed = record {
  object = λ n. record { queue = []; maxsize = 100; dropped = 0 };
  subscriptions = 0 ∷ [];
  fresh = 1;
}

abbrev watched : Live symbolic MockTransport
watched = record {
  poller = record { broadcaster = subscribed; task = none; next_task = 0; subscribers = 0 };
  device = record new_mock { is_open = true };
}

abbrev meter : Transport
meter = mock_transport symbolic

subscribed-IsListening : IsListening 0 100 subscribed [] []
subscribed-IsListening = record {
  registry = record { nodup = (refl, tt); known = (omega arith, tt) };
  registered = refl;
  faithful = record {
    size = refl;
    ordered = done;
    counted = refl;
    bounded = λ positive. omega arith;
  };
}

abbrev events : List (Event symbolic MockTransport)
events = enters ∷ polls (codes "2") ∷ polls (codes "3") ∷ records ∷ leaves 1 ∷ []

events-Keeps : All (Keeps {F = symbolic} meter 2000 in_order 0) events
events-Keeps = (tt, (tt, (tt, (tt, (λ e. absurd (omega arith), tt)))))

run_events-stored_example :
    let e = run_events meter 2000 in_order 0 events (begin meter 2000 in_order 0 watched store) in
    let subscription = e.live.poller.broadcaster.object 0 in
    let new = inserted in_order in_order-Appends tt e.taken store in
    (in_order-Appends.table tt e.store.world ≡ in_order-Appends.table tt store.world ++ new)
    × IsSubsequence new e.taken
    × IsSubsequence (e.taken ++ subscription.queue) e.polled
    × (length e.taken + length subscription.queue + subscription.dropped ≡ length e.polled)
run_events-stored_example =
    run_events-stored meter 2000 in_order 0 in_order-Appends tt 100 events watched store
      events-Keeps subscribed-IsListening refl
