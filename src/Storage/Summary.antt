-- ===== src/Storage/Summary.antt =====
-- `aggregate` sums up the readings of the window.
use owon_xdm1041_server.Base.{
  ◌≡◌, ◌≢◌, refl, ℕ, ◌==◌, Bool, true, false, Option, some, List, [], ◌∷◌, map, All, length, arith,
  ok, Text,
}
use mathlib.Core.Path.{fun_ext, subst}
use mathlib.Core.List.{Mem}
use owon_xdm1041_server.Base.Floats.{Floats}
use owon_xdm1041_server.Models.{Reading, Aggregate}
use owon_xdm1041_server.Storage.{
  Field, ts, value, Count, count_all, count_distinct, Expression, average_of, total_of, least_of,
  greatest_of, AggregateColumns, aggregate_columns, Clause, Value, AggregateRow, Sqlite, Database,
  filters, aggregate, of_row, empty_aggregate,
}
use owon_xdm1041_server.Storage.History.{keep_if}
use owon_xdm1041_server.Storage.Queries.{all_hold, in_window, all_hold-filters}

module _ (F : Floats) where
  -- A value of one of the rows that stands before those of all rows, in the given order.
  abbrev pub IsFirst :
      (F.Float → F.Float → Bool)
      → (Reading F → F.Float)
      → List (Reading F)
      → Option F.Float
      → Type 0
  IsFirst before of rows found =
      (r : Reading F) × Mem r rows
      × (found ≡ some (of r))
      × All (λ q. before (of r) (of q) ≡ true) rows

  abbrev pub field : Field → Reading F → F.Float
  field ts r = r.timestamp
  field value r = r.value

  -- The mean, least and greatest of the values, and the least and greatest of the times, over rows.
  -- The mean is the sum divided by the number of rows.
  pub record IsSummary (total : List F.Float → F.Float) (rows : List (Reading F))
      (mean low high first last : Option F.Float) : Type 0 where
    pub mean_is :
        mean ≡ some (F.div (total (map (λ r. r.value) rows)) (F.of_difference (length rows) 0))
    pub low_is : IsFirst F.le (λ r. r.value) rows low
    pub high_is : IsFirst (λ x y. F.le y x) (λ r. r.value) rows high
    pub first_is : IsFirst F.le (λ r. r.timestamp) rows first
    pub last_is : IsFirst (λ x y. F.le y x) (λ r. r.timestamp) rows last

  -- What SQLite documents of its aggregate functions: COUNT(*) is the number of rows; over one row
  -- or more, AVG is TOTAL divided by their number, MIN and MAX are the first in the order of the
  -- values and the last. How TOTAL rounds is left open.
  abbrev pub Counts : Count → List (Reading F) → ℕ → Type 0
  Counts count_all rows n = n ≡ length rows
  Counts (count_distinct f) rows n = Unit {0}

  abbrev pub Gives :
      (List F.Float → F.Float) → Expression → List (Reading F) → Option F.Float → Type 0
  Gives total (average_of f) rows found =
      found ≡ some (F.div (total (map (field f) rows)) (F.of_difference (length rows) 0))
  Gives total (total_of f) rows found = found ≡ some (total (map (field f) rows))
  Gives total (least_of f) rows found = IsFirst F.le (field f) rows found
  Gives total (greatest_of f) rows found = IsFirst (λ x y. F.le y x) (field f) rows found

  -- The expressions of a SELECT list, each in the column of its name.
  pub record GivesAll (total : List F.Float → F.Float) (columns : AggregateColumns)
      (rows : List (Reading F)) (row : AggregateRow F) : Type 0 where
    pub mean_gives : Gives total columns.mean rows row.mean
    pub lo_gives : Gives total columns.lo rows row.lo
    pub hi_gives : Gives total columns.hi rows row.hi
    pub first_gives : Gives total columns.first_ts rows row.first_ts
    pub last_gives : Gives total columns.last_ts rows row.last_ts

  -- SQLite evaluates a SELECT list of aggregate functions, whatever it is: it gives one row, with
  -- the count of the rows that pass, and with the other columns where any passes.
  pub record Summarises (Q : Sqlite F) : Type 0 where
    pub table : Q.Connection → Q.World → List (Reading F)
    pub total : List F.Float → F.Float
    pub total_one : (x : F.Float) → total (x ∷ []) ≡ x
    pub select_row :
        (conn : Q.Connection) (columns : AggregateColumns) (clauses : List Clause)
        (params : List (Value F)) (w : Q.World) (found : Option (AggregateRow F))
        → let rows = keep_if (all_hold F clauses params) (table conn w) in
          (Q.select_aggregate conn columns clauses params w).0 ≡ ok found
          → (row : AggregateRow F) × (found ≡ some row)
            × Counts columns.n rows row.n
            × (rows ≢ [] → GivesAll total columns rows row)

  -- What `aggregate` should return for the readings of its window.
  pub record IsAggregate (total : List F.Float → F.Float) (rows : List (Reading F))
      (agg : Aggregate F) : Type 0 where
    pub counted : agg.count ≡ length rows
    pub nothing : rows ≡ [] → agg ≡ empty_aggregate F
    pub summary : rows ≢ [] → IsSummary total rows agg.mean agg.min agg.max agg.first_ts agg.last_ts

  -- The SELECT list of `aggregate` gives the summary.
  columns-IsSummary :
      (total : List F.Float → F.Float) (rows : List (Reading F)) (row : AggregateRow F)
      → GivesAll total aggregate_columns rows row
      → IsSummary total rows row.mean row.lo row.hi row.first_ts row.last_ts
  unfolding aggregate_columns
  columns-IsSummary total rows row h = record {
    mean_is = h.mean_gives;
    low_is = h.lo_gives;
    high_is = h.hi_gives;
    first_is = h.first_gives;
    last_is = h.last_gives;
  }

  of_row-IsAggregate :
      (total : List F.Float → F.Float) (rows : List (Reading F)) (row : AggregateRow F)
      → row.n ≡ length rows
      → (rows ≢ [] → IsSummary total rows row.mean row.lo row.hi row.first_ts row.last_ts)
      → IsAggregate total rows (of_row F (some row))
  of_row-IsAggregate total [] row n h =
      rw n (record { counted = refl; nothing = λ e. refl; summary = λ k. absurd (k refl) })
  of_row-IsAggregate total (r ∷ rows) row n h =
      let some_row : (row.n == 0) ≡ false = ground (arith, n) in
      rw some_row (record { counted = n; nothing = λ e. cc; summary = h })

module _ {F : Floats} (Q : Sqlite F) (E : Summarises F Q) where
  aggregate-ok :
      (since until : Option F.Float) (function : Option Text) (conn : Q.Connection) (d : Database Q)
      (found : Option (AggregateRow F))
      → let (clauses, params) = filters F since until function in
        d.conn ≡ some conn
        → (Q.select_aggregate conn aggregate_columns clauses params d.world).0 ≡ ok found
        → (aggregate Q since until function d).0 ≡ ok (of_row F found)
  unfolding aggregate
  aggregate-ok since until function conn d found e h = ground arith

  -- Over a SQLite that evaluates the statement as documented: where the statement returns, on an
  -- open connection, `aggregate` returns the number of readings in the window; where there is none,
  -- the other fields are `None`; and else they are the mean (SQLite's total of the values, however
  -- it rounds, divided by their number), the least and the greatest of the values and the earliest
  -- and the latest time of just those readings.
  pub aggregate-IsAggregate :
      (since until : Option F.Float) (function : Option Text) (conn : Q.Connection) (d : Database Q)
      (found : Option (AggregateRow F))
      → let (clauses, params) = filters F since until function in
        let rows = keep_if (in_window F since until function) (E.table conn d.world) in
        d.conn ≡ some conn
        → (Q.select_aggregate conn aggregate_columns clauses params d.world).0 ≡ ok found
        → ((aggregate Q since until function d).0 ≡ ok (of_row F found))
          × IsAggregate F E.total rows (of_row F found)
  aggregate-IsAggregate since until function conn d found e selected =
      let (clauses, params) = filters F since until function in
      let (row, one, n, h) =
        E.select_row conn aggregate_columns clauses params d.world found selected in
      (
        aggregate-ok since until function conn d found e selected,
        subst
            (λ (p : Reading F → Bool).
              IsAggregate F E.total (keep_if p (E.table conn d.world)) (of_row F found))
            (fun_ext (all_hold-filters F since until function))
            (rw one (
              of_row-IsAggregate F E.total
                (keep_if (all_hold F clauses params) (E.table conn d.world)) row
                (unfold aggregate_columns in n)
                λ some_row. columns-IsSummary F E.total _ row (h some_row))),
      )
