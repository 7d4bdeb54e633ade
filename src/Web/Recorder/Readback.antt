-- ===== src/Web/Recorder/Readback.antt =====
-- What is read back of the readings that the recorder has stored.
use mathlib.Core.List.{reverse, append-nil, Perm}
use mathlib.Core.Path.{subst}
use owon_xdm1041_server.Base.{
  ◌≡◌, refl, ◌∙◌, Option, some, List, [], ◌∷◌, ◌++◌, length, ok, Text, arith,
}
use owon_xdm1041_server.Base.Floats.{Floats}
use owon_xdm1041_server.Models.{Reading}
use owon_xdm1041_server.Storage
use owon_xdm1041_server.Storage.{Sqlite, Database, Limit, unlimited, filters, insert_reading}
use owon_xdm1041_server.Storage.History.{
  keep_if, IsAscending, IsHistory, Evaluates, history-IsHistory,
}
use owon_xdm1041_server.Storage.Queries.{in_window}
use owon_xdm1041_server.Web.Recorder.{run}
use owon_xdm1041_server.Web.Recorder.Recording.{Appends, inserted, conn-insert_reading, run-appends}

nil_of_length : {A : Type 0} (xs : List A) → length xs ≡ 0 → xs ≡ []
nil_of_length [] e = refl
nil_of_length (x ∷ xs) e = absurd (omega arith)

module _ (F : Floats) where
  -- With no limit, a history is all that passes.
  whole :
      (p : Reading F → _) (table readings : List (Reading F))
      → IsHistory F p table unlimited readings
      → Perm readings (keep_if p table) × IsAscending F readings
  whole p table readings h =
      let none_left = nil_of_length h.older h.fills in
      (
        subst (λ xs. Perm xs (keep_if p table)) (append-nil readings)
            (subst (λ xs. Perm (readings ++ xs) (keep_if p table)) none_left h.perm),
        h.ascending,
      )

module _ {F : Floats} (Q : Sqlite F) (E : Evaluates F Q) (L : Appends Q) (conn : Q.Connection) where
  conn-run :
      (rs : List (Reading F)) (d : Database Q) → d.conn ≡ some conn → (run Q rs d).conn ≡ some conn
  unfolding run
  conn-run [] d e = e
  conn-run (r ∷ rs) d e = conn-run rs (insert_reading Q r d).1 (conn-insert_reading Q conn r d e)

  -- Over a SQLite that keeps both its documentation of INSERT and that of SELECT: after the
  -- recorder has run on an open connection, `history` without a limit, where its statement returns,
  -- gives just those readings of the window that were in the table before or whose INSERT returned,
  -- each as often as it is there, oldest first.
  pub recorded_history :
      ((w : Q.World) → E.table conn w ≡ L.table conn w)
      → (rs : List (Reading F)) (d : Database Q) (since until : Option F.Float)
        (function : Option Text) (rows : List (Reading F))
      → let (clauses, params) = filters F since until function in
        let e = run Q rs d in
        d.conn ≡ some conn
        → (Q.select conn clauses params unlimited e.world).0 ≡ ok rows
        → ((Storage.history Q since until function unlimited e).0 ≡ ok (reverse rows))
          × Perm (reverse rows) (
              keep_if
                (in_window F since until function)
                (L.table conn d.world ++ inserted Q L conn rs d))
          × IsAscending F (reverse rows)
  recorded_history same rs d since until function rows open_now selected =
      let e = run Q rs d in
      let (answer, h) =
        history-IsHistory Q E since until function unlimited conn e rows (conn-run rs d open_now)
          selected in
      let grown = same e.world ∙ (run-appends Q L conn rs d open_now).0 in
      let (perm, ascending) = whole F _ (E.table conn e.world) (reverse rows) h in
      (
        answer,
        subst (λ table. Perm (reverse rows) (keep_if (in_window F since until function) table))
            grown perm,
        ascending,
      )
