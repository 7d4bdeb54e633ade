-- ===== src/Storage/Queries.antt =====
-- What `history` and `aggregate` return, as far as SQLite evaluates their statements as documented.
use owon_xdm1041_server.Base.{
  ◌≡◌, Bool, true, false, ◌&&◌, Option, none, some, List, [], ◌∷◌, arith, Text, text_eq,
}
use owon_xdm1041_server.Base.Floats.{Floats}
use owon_xdm1041_server.Models.{Reading}
use owon_xdm1041_server.Storage.{Clause, ts_from, ts_to, function_is, Value, real, text, filters}

module _ (F : Floats) where
  -- A clause with its parameter, on a row.
  abbrev pub holds : Clause → Value F → Reading F → Bool
  holds ts_from (real x) r = F.le x r.timestamp
  holds ts_to (real x) r = F.le r.timestamp x
  holds function_is (text t) r = text_eq r.function t
  holds _ v r = false

  -- The clauses joined by AND, each with the parameter in its place.
  abbrev pub all_hold : List Clause → List (Value F) → Reading F → Bool
  all_hold [] [] r = true
  all_hold (c ∷ cs) (v ∷ vs) r = holds c v r && all_hold cs vs r
  all_hold _ vs r = false

  -- The filter that the methods' documentation describes.
  abbrev pub or_passes : {A : Type 0} → (A → Bool) → Option A → Bool
  or_passes test none = true
  or_passes test (some a) = test a

  pub in_window : Option F.Float → Option F.Float → Option Text → Reading F → Bool
  in_window since until function r =
      or_passes (λ x. F.le x r.timestamp) since
      && (or_passes (λ x. F.le r.timestamp x) until
          && or_passes (λ t. text_eq r.function t) function)

  -- The WHERE clause and its parameters select just the readings in the window.
  pub all_hold-filters :
      (since until : Option F.Float) (function : Option Text) (r : Reading F)
      → let (clauses, params) = filters F since until function in
        all_hold clauses params r ≡ in_window since until function r
  unfolding filters in_window
  all_hold-filters none none none r = ground arith
  all_hold-filters none none (some f) r = ground arith
  all_hold-filters none (some u) none r = ground arith
  all_hold-filters none (some u) (some f) r = ground arith
  all_hold-filters (some s) none none r = ground arith
  all_hold-filters (some s) none (some f) r = ground arith
  all_hold-filters (some s) (some u) none r = ground arith
  all_hold-filters (some s) (some u) (some f) r = ground arith
