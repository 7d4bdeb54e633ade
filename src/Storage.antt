-- ===== src/Storage.antt =====
-- src/owon_xdm1041_server/storage/db.py: the store of readings, over SQLite. A statement stands for
-- its text: the list of its WHERE clauses, joined by AND, and the list of its parameters.
pub mod Queries
pub mod History
pub mod Summary
mod Tests
use owon_xdm1041_server.Base.{
  ℕ, ◌==◌, Bool, true, false, Option, none, some, List, [], ◌∷◌, ◌++◌, if◌then◌else◌, Action, Error,
  Result, ok, err, runtime_error, pure, raise, ◌>>=◌, ◌>>◌, Text,
}
use mathlib.Core.List.{reverse}
use owon_xdm1041_server.Base.Floats.{Floats}
use owon_xdm1041_server.Models.{Reading, Aggregate}

-- `ts >= ?`, `ts <= ?`, `function = ?`
pub data Clause : Type 0 where
  ts_from ts_to function_is : Clause

-- The parameter of a clause.
pub data Value (F : Floats) : Type 0 where
  real : F.Float → Value F
  text : Text → Value F

-- What a SELECT list of `aggregate` can be made of: SQLite's aggregate functions over the fields.
pub data Field : Type 0 where
  ts value : Field

pub data Count : Type 0 where
  count_all : Count
  count_distinct : Field → Count

pub data Expression : Type 0 where
  average_of total_of least_of greatest_of : Field → Expression

-- The SELECT list, by the names after AS.
pub record AggregateColumns : Type 0 where
  pub n : Count
  pub mean : Expression
  pub lo : Expression
  pub hi : Expression
  pub first_ts : Expression
  pub last_ts : Expression

-- The row of the statement in `aggregate`.
pub record AggregateRow (F : Floats) : Type 0 where
  pub n : ℕ
  pub mean : Option F.Float
  pub lo : Option F.Float
  pub hi : Option F.Float
  pub first_ts : Option F.Float
  pub last_ts : Option F.Float

-- The bound of LIMIT, an integer; SQLite takes a negative one as no bound.
pub data Limit : Type 0 where
  at_most : ℕ → Limit
  unlimited : Limit

-- What the store uses of aiosqlite. Each method may raise.
pub record Sqlite (F : Floats) : Type 1 where
  pub World : Type 0
  pub Connection : Type 0
  pub connect : Text → Action World Connection
  -- The script of `_SCHEMA`.
  pub create_schema : Connection → Action World (Unit {0})
  pub commit : Connection → Action World (Unit {0})
  pub close : Connection → Action World (Unit {0})
  pub insert : Connection → Reading F → Action World (Unit {0})
  -- SELECT ts, function, value, unit FROM readings WHERE … ORDER BY ts DESC LIMIT ?
  pub select : Connection → List Clause → List (Value F) → Limit → Action World (List (Reading F))
  -- SELECT … FROM readings WHERE …
  pub select_aggregate :
      Connection
      → AggregateColumns
      → List Clause
      → List (Value F)
      → Action World (Option (AggregateRow F))
  pub select_count : Connection → Action World (Option ℕ)

pub record Database {F : Floats} (Q : Sqlite F) : Type 0 where
  pub path : Text
  pub conn : Option Q.Connection
  pub world : Q.World

-- One of the filters of `history` and `aggregate`, added to the clauses and to the parameters.
abbrev pub add_filter {ℓ} :
    {A : Type ℓ} {F : Floats}
    → Clause
    → (A → Value F)
    → Option A
    → List Clause × List (Value F)
    → List Clause × List (Value F)
add_filter clause parameter none (clauses, params) = (clauses, params)
add_filter clause parameter (some a) (clauses, params) =
    (clauses ++ (clause ∷ []), params ++ (parameter a ∷ []))

-- The clauses and the parameters of `history` and `aggregate`.
unfoldable pub filters :
    (F : Floats) → Option F.Float → Option F.Float → Option Text → List Clause × List (Value F)
filters F since until function =
    add_filter function_is text function
      (add_filter ts_to real until (add_filter ts_from real since ([], [])))

-- COUNT(*) AS n, AVG(value) AS mean, MIN(value) AS lo, MAX(value) AS hi, MIN(ts) AS first_ts,
-- MAX(ts) AS last_ts
unfoldable pub aggregate_columns : AggregateColumns
aggregate_columns = record {
  n = count_all;
  mean = average_of value;
  lo = least_of value;
  hi = greatest_of value;
  first_ts = least_of ts;
  last_ts = greatest_of ts;
}

-- What `aggregate` makes of the row.
abbrev pub empty_aggregate : (F : Floats) → Aggregate F
empty_aggregate F = record {
  count = 0;
  mean = none;
  min = none;
  max = none;
  first_ts = none;
  last_ts = none;
}

abbrev pub of_row : (F : Floats) → Option (AggregateRow F) → Aggregate F
of_row F none = empty_aggregate F
of_row F (some row) = if row.n == 0 then empty_aggregate F else record {
  count = row.n;
  mean = row.mean;
  min = row.lo;
  max = row.hi;
  first_ts = row.first_ts;
  last_ts = row.last_ts;
}

abbrev pub or_zero : Option ℕ → ℕ
or_zero none = 0
or_zero (some n) = n

module _ {F : Floats} (Q : Sqlite F) where
  -- A method of the connection, on the world.
  abbrev pub on_world : {A : Type 0} → Action Q.World A → Action (Database Q) A
  on_world m d = let r = m d.world in (r.0, record d { world = r.1 })

  unfoldable pub connect : Action (Database Q) (Unit {0})
  connect d =
      (do
        conn ← on_world (Q.connect d.path)
        (λ d. (ok tt, record d { conn = some conn })) >> on_world (Q.create_schema conn)
        on_world (Q.commit conn))
        d

  abbrev close_conn : Option Q.Connection → Action (Database Q) (Unit {0})
  close_conn none = pure tt
  close_conn (some conn) = do on_world (Q.close conn); λ d. (ok tt, record d { conn = none })

  unfoldable pub close : Action (Database Q) (Unit {0})
  close d = close_conn d.conn d

  -- `_db`: the connection, or a `RuntimeError`.
  abbrev pub connected : Option Q.Connection → Action (Database Q) Q.Connection
  connected none = raise runtime_error
  connected (some conn) = pure conn

  unfoldable pub db : Action (Database Q) Q.Connection
  db d = connected d.conn d

  unfoldable pub insert_reading : Reading F → Action (Database Q) (Unit {0})
  unfolding db
  insert_reading reading = do
    conn ← db
    on_world (Q.insert conn reading)
    conn ← db
    on_world (Q.commit conn)

  unfoldable pub history :
      Option F.Float → Option F.Float → Option Text → Limit → Action (Database Q) (List (Reading F))
  unfolding db
  history since until function limit = do
    let (clauses, params) = filters F since until function
    conn ← db
    rows ← on_world (Q.select conn clauses params limit)
    pure (reverse rows)

  unfoldable pub aggregate :
      Option F.Float → Option F.Float → Option Text → Action (Database Q) (Aggregate F)
  unfolding db
  aggregate since until function = do
    let (clauses, params) = filters F since until function
    conn ← db
    row ← on_world (Q.select_aggregate conn aggregate_columns clauses params)
    pure (of_row F row)

  unfoldable pub count : Action (Database Q) ℕ
  unfolding db
  count = do conn ← db; n ← on_world (Q.select_count conn); pure (or_zero n)
