-- ===== src/Storage/Tests.antt =====
-- The theorems about the store, over a table of two rows.
use mathlib.Core.List.{mem-cons_self, Perm}
use mathlib.Core.List.Perm
use owon_xdm1041_server.Base.{
  ◌≡◌, ◌≢◌, refl, Bool, Option, none, some, Result, ok, err, runtime_error, Text, codes, text_eq,
  List, [], ◌∷◌, map, length, Bool-cases, inl, inr,
}
use owon_xdm1041_server.Base.Symbolic.{symbolic}
use owon_xdm1041_server.Models.{Reading}
use owon_xdm1041_server.Storage.{
  at_most, ts, value, Count, count_all, count_distinct, Expression, average_of, total_of, least_of,
  greatest_of, AggregateColumns, aggregate_columns, AggregateRow, Sqlite, Database, filters,
  history, aggregate, of_row,
}
use owon_xdm1041_server.Storage.Queries.{in_window, all_hold}
use owon_xdm1041_server.Storage.Summary.{
  field, Counts, Gives, GivesAll, Summarises, IsAggregate, aggregate-IsAggregate,
}
use owon_xdm1041_server.Storage.History.{
  keep_if, limited, IsDescending, Evaluates, IsHistory, history-IsHistory,
}

abbrev early : Reading symbolic
early = record {
  timestamp = codes "1";
  function = codes "VOLT";
  value = codes "3.3";
  unit = codes "V";
}

abbrev late : Reading symbolic
late = record {
  timestamp = codes "2";
  function = codes "RES";
  value = codes "1000";
  unit = codes "Ω";
}

-- A table that cannot be written.
abbrev two_rows : Sqlite symbolic
two_rows = record {
  World = Unit {0};
  Connection = Unit {0};
  connect = λ path w. (ok tt, w);
  create_schema = λ c w. (ok tt, w);
  commit = λ c w. (ok tt, w);
  close = λ c w. (ok tt, w);
  insert = λ c r w. (err runtime_error, w);
  select = λ c clauses params limit w.
      (ok (limited limit (keep_if (all_hold symbolic clauses params) (late ∷ early ∷ []))), w);
  select_aggregate = λ c columns clauses params w. (ok none, w);
  select_count = λ c w. (ok (some 2), w);
}

arranged-perm :
    (p : Reading symbolic → Bool)
    → Perm (keep_if p (late ∷ early ∷ [])) (keep_if p (early ∷ late ∷ []))
arranged-perm p = elim (Bool-cases (p late)) [
  | inl a ↦ elim (Bool-cases (p early)) [
    | inl b ↦ rw (a, b) (Perm.swap _ _ _)
    | inr b ↦ rw (a, b) (Perm.refl _)
  ]
  | inr a ↦ elim (Bool-cases (p early)) [
    | inl b ↦ rw (a, b) (Perm.refl _)
    | inr b ↦ rw (a, b) (Perm.refl _)
  ]
]

arranged-IsDescending :
    (p : Reading symbolic → Bool) → IsDescending symbolic (keep_if p (late ∷ early ∷ []))
arranged-IsDescending p = elim (Bool-cases (p late)) [
  | inl a ↦ elim (Bool-cases (p early)) [
    | inl b ↦ rw (a, b) ((refl, tt), (tt, tt))
    | inr b ↦ rw (a, b) (tt, tt)
  ]
  | inr a ↦ elim (Bool-cases (p early)) [ inl b ↦ rw (a, b) (tt, tt) | inr b ↦ rw (a, b) tt ]
]

from_ok : {A : Type 0} (x y : A) → ◌≡◌ {A = Result A} (ok x) (ok y) → y ≡ x
from_ok x y e = cc

two_rows-Evaluates : Evaluates symbolic two_rows
two_rows-Evaluates = record {
  table = λ c w. early ∷ late ∷ [];
  select_rows = λ c clauses params limit w rows e. record {
    arranged = keep_if (all_hold symbolic clauses params) (late ∷ early ∷ []);
    perm = arranged-perm (all_hold symbolic clauses params);
    descending = arranged-IsDescending (all_hold symbolic clauses params);
    first_rows = from_ok _ rows e;
  };
}

abbrev opened : Database two_rows
opened = record { path = codes "owon_xdm1041.sqlite3"; conn = some tt; world = tt }

history-IsHistory_example :
    ((history two_rows (some (codes "1")) none none (at_most 1) opened).0 ≡ ok (late ∷ []))
    × IsHistory symbolic
        (in_window symbolic (some (codes "1")) none none)
        (two_rows-Evaluates.table tt tt)
        (at_most 1)
        (late ∷ [])
unfolding filters
history-IsHistory_example =
    history-IsHistory two_rows two_rows-Evaluates (some (codes "1")) none none (at_most 1) tt opened
      (late ∷ []) refl refl

-- The sum of some values.
abbrev sum : List Text → Text
sum [] = []
sum (x ∷ []) = x
sum (x ∷ y ∷ xs) = symbolic.add x (sum (y ∷ xs))

-- A column of the statement of `aggregate`, on a table that has one row at most.
abbrev cell : Expression → List (Reading symbolic) → Option Text
cell e [] = none
cell (average_of f) (r ∷ rows) = some (
    symbolic.div (sum (map (field symbolic f) (r ∷ rows)))
      (symbolic.of_difference (length (r ∷ rows)) 0))
cell (total_of f) (r ∷ rows) = some (sum (map (field symbolic f) (r ∷ rows)))
cell (least_of f) (r ∷ rows) = some (field symbolic f r)
cell (greatest_of f) (r ∷ rows) = some (field symbolic f r)

abbrev row_of : AggregateColumns → List (Reading symbolic) → AggregateRow symbolic
row_of columns rows = record {
  n = length rows;
  mean = cell columns.mean rows;
  lo = cell columns.lo rows;
  hi = cell columns.hi rows;
  first_ts = cell columns.first_ts rows;
  last_ts = cell columns.last_ts rows;
}

abbrev one_row : Sqlite symbolic
one_row = record {
  World = Unit {0};
  Connection = Unit {0};
  connect = λ path w. (ok tt, w);
  create_schema = λ c w. (ok tt, w);
  commit = λ c w. (ok tt, w);
  close = λ c w. (ok tt, w);
  insert = λ c r w. (err runtime_error, w);
  select = λ c clauses params limit w. (err runtime_error, w);
  select_aggregate = λ c columns clauses params w.
      (ok (some (row_of columns (keep_if (all_hold symbolic clauses params) (early ∷ [])))), w);
  select_count = λ c w. (ok (some 1), w);
}

cell-Gives : (e : Expression) → Gives symbolic sum e (early ∷ []) (cell e (early ∷ []))
cell-Gives (average_of f) = refl
cell-Gives (total_of f) = refl
cell-Gives (least_of ts) = (early, mem-cons_self, refl, (refl, tt))
cell-Gives (least_of value) = (early, mem-cons_self, refl, (refl, tt))
cell-Gives (greatest_of ts) = (early, mem-cons_self, refl, (refl, tt))
cell-Gives (greatest_of value) = (early, mem-cons_self, refl, (refl, tt))

length-Counts : (c : Count) (rows : List (Reading symbolic)) → Counts symbolic c rows (length rows)
length-Counts count_all rows = refl
length-Counts (count_distinct f) rows = tt

row_of-GivesAll :
    (columns : AggregateColumns) (p : Reading symbolic → Bool)
    → let rows = keep_if p (early ∷ []) in
      rows ≢ [] → GivesAll symbolic sum columns rows (row_of columns rows)
row_of-GivesAll columns p = elim (Bool-cases (p early)) [
  | inl kept ↦ rw kept λ some_row. record {
    mean_gives = cell-Gives columns.mean;
    lo_gives = cell-Gives columns.lo;
    hi_gives = cell-Gives columns.hi;
    first_gives = cell-Gives columns.first_ts;
    last_gives = cell-Gives columns.last_ts;
  }
  | inr out ↦ rw out λ some_row. absurd (some_row refl)
]

one_row-Summarises : Summarises symbolic one_row
one_row-Summarises = record {
  table = λ c w. early ∷ [];
  total = sum;
  total_one = λ x. refl;
  select_row = λ c columns clauses params w found e.
      let p = all_hold symbolic clauses params in
      let rows = keep_if p (early ∷ []) in
      (
        row_of columns rows,
        from_ok _ found e,
        length-Counts columns.n rows,
        row_of-GivesAll columns p,
      );
}

abbrev summed : Database one_row
summed = record { path = codes "owon_xdm1041.sqlite3"; conn = some tt; world = tt }

aggregate-IsAggregate_example :
    ((aggregate one_row none none (some (codes "VOLT")) summed).0
      ≡ ok (of_row symbolic (some (row_of aggregate_columns (early ∷ [])))))
    × IsAggregate symbolic one_row-Summarises.total
        (keep_if
          (in_window symbolic none none (some (codes "VOLT")))
          (one_row-Summarises.table tt tt))
        (of_row symbolic (some (row_of aggregate_columns (early ∷ []))))
unfolding filters text_eq aggregate_columns
aggregate-IsAggregate_example =
    aggregate-IsAggregate one_row one_row-Summarises none none (some (codes "VOLT")) tt summed
      (some (row_of aggregate_columns (early ∷ []))) refl refl
