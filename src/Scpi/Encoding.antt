-- ===== src/Scpi/Encoding.antt =====
-- Text that is not ASCII ends a client's connection: only connection errors and device errors are
-- caught on the way.
use owon_xdm1041_server.Base.{
  ◌≡◌, ◌⊎◌, ℕ, Bool, true, none, some, arith, Result, ok, err, unicode_error, Text, List, [], ◌∷◌,
  strip, text_eq, encode_ascii, decode_ascii, Bool-cases, inl, inr,
}
use owon_xdm1041_server.Base.StringLaws.{text_eq_iff}
use owon_xdm1041_server.Device.Manager
use owon_xdm1041_server.Device.Transport.{Transport}
use owon_xdm1041_server.Scpi.{
  Incoming, line, Session, run_command, handle_command, client_loop, handle_client,
}
use owon_xdm1041_server.Scpi.Replies.{is_query, not-query_empty}

module _ (T : Transport) (default_timeout : ℕ) where
  pub handle_command-query :
      (c : Text) (s d : T.State) (x : Text)
      → is_query c ≡ true
      → Manager.query T default_timeout (strip c) none s ≡ (ok x, d)
      → handle_command T default_timeout c s ≡ (ok (some x), d)
  unfolding handle_command run_command
  handle_command-query c s d x q e = elim (Bool-cases (text_eq (strip c) [])) [
    | inl empty ↦ absurd (not-query_empty (strip c) ((text_eq_iff (strip c) []).0 empty) q)
    | inr full ↦ ground (arith, full)
  ]

  handle_command-raises :
      (c : Text) (s d : T.State)
      → is_query c ≡ true
      → Manager.query T default_timeout (strip c) none s ≡ (err unicode_error, d)
      → handle_command T default_timeout c s ≡ (err unicode_error, d)
  unfolding handle_command run_command
  handle_command-raises c s d q e = elim (Bool-cases (text_eq (strip c) [])) [
    | inl empty ↦ absurd (not-query_empty (strip c) ((text_eq_iff (strip c) []).0 empty) q)
    | inr full ↦ ground (arith, full)
  ]

  -- A query whose answer is not ASCII, or on which the manager raises `UnicodeEncodeError`, ends
  -- the client's handler with `UnicodeEncodeError`: the socket is closed, nothing is written, and
  -- the lines that follow are never handled.
  pub handle_client_not_ascii :
      (raw : List ℕ) (taken : Bool) (rest : List (Incoming T.State)) (s : Session T.State)
      (d : T.State) (r : Result Text)
      → is_query (decode_ascii raw) ≡ true
      → Manager.query T default_timeout (strip (decode_ascii raw)) none s.device ≡ (r, d)
      → (r ≡ err unicode_error) ⊎ ((x : Text) × (r ≡ ok x) × (encode_ascii x ≡ none))
      → handle_client T default_timeout (line raw taken ∷ rest) s
        ≡ (err unicode_error, record s { device = d; closed = true })
  unfolding handle_client client_loop
  handle_client_not_ascii [] taken rest s d r q e u =
      absurd (not-query_empty (strip (decode_ascii [])) (unfold decode_ascii strip in cc) q)
  handle_client_not_ascii (b ∷ raw) taken rest s d r q e (inl k) =
      ground (arith, handle_command-raises (decode_ascii (b ∷ raw)) s.device d q)
  handle_client_not_ascii (b ∷ raw) taken rest s d r q e (inr (x, k, n)) =
      ground (arith, handle_command-query (decode_ascii (b ∷ raw)) s.device d x q)
