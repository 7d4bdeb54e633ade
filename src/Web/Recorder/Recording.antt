-- ===== src/Web/Recorder/Recording.antt =====
-- What the recorder leaves in the store.
use mathlib.Core.List.{append-nil, append_assoc}
use owon_xdm1041_server.Base.{
  ◌≡◌, ◌∙◌, refl, sym, ap, Bool, true, false, some, List, [], ◌∷◌, ◌++◌, arith, Result, ok, err,
  if◌then◌else◌, Bool-cases, inl, inr,
}
use owon_xdm1041_server.Base.Floats.{Floats}
use owon_xdm1041_server.Models.{Reading}
use owon_xdm1041_server.Storage.{Sqlite, Database, insert_reading}
use owon_xdm1041_server.Web.Broadcast.Stream.{IsSubsequence, done, keep, skip}
use owon_xdm1041_server.Web.Recorder.{run}

abbrev pub returned : {A : Type 0} → Result A → Bool
returned (ok a) = true
returned (err e) = false

-- SQLite appends the row of an INSERT that returns, and leaves the table by one that raises; a
-- commit leaves the rows that the connection sees.
pub record Appends {F : Floats} (Q : Sqlite F) : Type 0 where
  pub table : Q.Connection → Q.World → List (Reading F)
  pub insert_rows :
      (conn : Q.Connection) (r : Reading F) (w : Q.World)
      → table conn (Q.insert conn r w).1
        ≡ (if returned (Q.insert conn r w).0 then table conn w ++ (r ∷ []) else table conn w)
  pub commit_rows :
      (conn : Q.Connection) (w : Q.World) → table conn (Q.commit conn w).1 ≡ table conn w

onto :
    {A : Type 0} (b : Bool) (r : A) (xs ys : List A)
    → (if b then xs ++ (r ∷ []) else xs) ++ ys ≡ xs ++ (if b then r ∷ ys else ys)
onto true r xs ys = append_assoc xs (r ∷ []) ys
onto false r xs ys = refl

module _ {F : Floats} (Q : Sqlite F) (conn : Q.Connection) where
  pub conn-insert_reading :
      (r : Reading F) (d : Database Q)
      → d.conn ≡ some conn
      → (insert_reading Q r d).1.conn ≡ some conn
  unfolding insert_reading
  conn-insert_reading r d e = ground arith

module _ {F : Floats} (Q : Sqlite F) (L : Appends Q) (conn : Q.Connection) where
  -- The readings whose INSERT returns while the recorder runs.
  pub inserted : List (Reading F) → Database Q → List (Reading F)
  inserted [] d = []
  inserted (r ∷ rs) d =
      let rest = inserted rs (insert_reading Q r d).1 in
      if returned (Q.insert conn r d.world).0 then r ∷ rest else rest

  table-insert_reading :
      (r : Reading F) (d : Database Q)
      → d.conn ≡ some conn
      → L.table conn (insert_reading Q r d).1.world ≡ (
          if returned (Q.insert conn r d.world).0
          then L.table conn d.world ++ (r ∷ [])
          else L.table conn d.world)
  unfolding insert_reading
  table-insert_reading r d e =
      ground (arith, L.insert_rows conn r d.world, L.commit_rows conn (Q.insert conn r d.world).1)

  inserted-IsSubsequence :
      (rs : List (Reading F)) (d : Database Q) → IsSubsequence (inserted rs d) rs
  unfolding inserted
  inserted-IsSubsequence [] d = done
  inserted-IsSubsequence (r ∷ rs) d =
      let rest = inserted-IsSubsequence rs (insert_reading Q r d).1 in
      elim (Bool-cases (returned (Q.insert conn r d.world).0)) [
        | inl kept ↦ rw kept (keep r rest)
        | inr lost ↦ rw lost (skip r rest)
      ]

  table-run :
      (rs : List (Reading F)) (d : Database Q)
      → d.conn ≡ some conn
      → L.table conn (run Q rs d).world ≡ L.table conn d.world ++ inserted rs d
  unfolding run inserted
  table-run [] d e = sym (append-nil (L.table conn d.world))
  table-run (r ∷ rs) d e =
      table-run rs (insert_reading Q r d).1 (conn-insert_reading Q conn r d e)
      ∙ ap (λ (t : List (Reading F)). t ++ inserted rs (insert_reading Q r d).1)
          (table-insert_reading r d e)
      ∙ onto (returned (Q.insert conn r d.world).0) r (L.table conn d.world)
          (inserted rs (insert_reading Q r d).1)

  -- Over a SQLite that appends the row of each INSERT that returns and of no other: while the
  -- recorder runs on an open connection, the table grows just by the readings whose INSERT
  -- returns, in the order in which they arrived: a reading that cannot be stored is skipped, and
  -- those after it are stored.
  pub run-appends :
      (rs : List (Reading F)) (d : Database Q)
      → d.conn ≡ some conn
      → (L.table conn (run Q rs d).world ≡ L.table conn d.world ++ inserted rs d)
        × IsSubsequence (inserted rs d) rs
  run-appends rs d e = (table-run rs d e, inserted-IsSubsequence rs d)
