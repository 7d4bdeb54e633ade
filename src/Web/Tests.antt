-- ===== src/Web/Tests.antt =====
-- The theorems about live readings at concrete streams.
use owon_xdm1041_server.Base.{
  ◌≡◌, refl, ℕ, true, false, none, some, Bool, ok, err, runtime_error, Text, List, codes, [], ◌∷◌,
  ◌++◌, if◌then◌else◌,
}
use owon_xdm1041_server.Base.Symbolic.{symbolic, symbolic-IsPrintable}
use owon_xdm1041_server.Device.Mock.{MockTransport, new_mock, mock_transport, set_fail_next}
use owon_xdm1041_server.Device.Driver.Recovery.{reconnected}
use owon_xdm1041_server.Models.{Reading}
use owon_xdm1041_server.Storage.{Sqlite, Database}
use owon_xdm1041_server.Web.Poller.{Live, poll_round}
use owon_xdm1041_server.Web.Poller.OnDemand
use owon_xdm1041_server.Web.Poller.OnDemand.{
  Watched, new_watched, entered, left, here, viewer_enters, viewer_leaves, IsOnDemand,
  Reach-IsOnDemand,
}
use owon_xdm1041_server.Web.Poller.Sampling.{sampled, poll_round-recovers}
use owon_xdm1041_server.Web.Lifespan.{Lifespan, startup, shutdown}
use owon_xdm1041_server.Web.Lifespan.Stages.{records, lifespan_lem, startup_failed}
use owon_xdm1041_server.Web.Recorder.{run}

abbrev one_viewer : Watched ℕ
one_viewer = entered new_watched

Reach-IsOnDemand_example : IsOnDemand one_viewer
Reach-IsOnDemand_example = Reach-IsOnDemand one_viewer (OnDemand.next here viewer_enters)

abbrev live : Live symbolic MockTransport
live = record {
  poller = record {
    broadcaster = record {
      object = λ n. record { queue = []; maxsize = 100; dropped = 0 };
      subscriptions = 0 ∷ [];
      fresh = 1;
    };
    task = some 0;
    next_task = 1;
    subscribers = 1;
  };
  device = record new_mock { is_open = true };
}

poll_round-recovers_example :
    let s' =
      poll_round symbolic
        (mock_transport symbolic)
        2000
        (codes "10")
        (record live { device = set_fail_next (codes "unplugged") live.device }) in
    (s'.poller ≡ live.poller)
    × (poll_round symbolic (mock_transport symbolic) 2000 (codes "11") s'
        ≡ sampled (reconnected live.device) (codes "11") live)
poll_round-recovers_example =
    poll_round-recovers symbolic 2000 symbolic-IsPrintable (codes "unplugged") (codes "10")
      (codes "11") live refl

-- A table that refuses readings without a unit.
abbrev has_unit : Text → Bool
has_unit [] = false
has_unit (c ∷ unit) = true

abbrev strict : Sqlite symbolic
strict = record {
  World = List (Reading symbolic);
  Connection = Unit {0};
  connect = λ path w. (ok tt, w);
  create_schema = λ c w. (ok tt, w);
  commit = λ c w. (ok tt, w);
  close = λ c w. (ok tt, w);
  insert = λ c r w. if has_unit r.unit then (ok tt, w ++ (r ∷ [])) else (err runtime_error, w);
  select = λ c clauses params limit w. (err runtime_error, w);
  select_aggregate = λ c columns clauses params w. (ok none, w);
  select_count = λ c w. (ok none, w);
}

abbrev reading : Text → Reading symbolic
reading unit = record {
  timestamp = codes "1";
  function = codes "VOLT";
  value = codes "3.3";
  unit = unit;
}

abbrev stream : List (Reading symbolic)
stream = reading [] ∷ reading (codes "V") ∷ []

abbrev store : Database strict
store = record { path = []; conn = some tt; world = [] }

-- A store that is not connected yet.
abbrev unopened : Database strict
unopened = record { path = []; conn = none; world = [] }

abbrev opened : Database strict
opened = record unopened { conn = some tt }

abbrev before_start : Lifespan strict
before_start = record { database = some unopened; recorder = none }

lifespan_lem_example :
    let before = run strict stream opened in
    let written = run strict stream before in
    let s' = (startup strict before_start).1 in
    let e = shutdown strict stream (record s' { database = some before }) in
    ((startup strict before_start).0 ≡ ok tt)
    × (s'.database ≡ some opened)
    × (records s'.recorder ≡ true)
    × (e.0 ≡ ok tt)
    × (records e.1.recorder ≡ false)
    × (e.1.database ≡ some (record written { conn = none }))
lifespan_lem_example = lifespan_lem strict unopened tt [] [] [] stream stream refl refl refl refl

-- A database file whose schema cannot be made.
abbrev read_only : Sqlite symbolic
read_only = record strict { create_schema = λ c w. (err runtime_error, w) }

abbrev locked : Database read_only
locked = record { path = []; conn = none; world = [] }

startup_failed_example : startup read_only (record { database = some locked; recorder = none }) ≡ (
  err runtime_error,
  record { database = some (record locked { conn = some tt }); recorder = none },
)
startup_failed_example = startup_failed read_only locked tt [] [] runtime_error refl refl
