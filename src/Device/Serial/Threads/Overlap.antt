-- ===== src/Device/Serial/Threads/Overlap.antt =====
-- Two threads at one port: the one that a cancelled transaction left behind, and the next
-- transaction's.
use owon_xdm1041_server.Base.{
  ◌≡◌, ℕ, Bool, true, false, some, List, [], ◌∷◌, ◌++◌, ok, err, transport_error, encode_ascii,
  arith, codes, has_text,
}
use owon_xdm1041_server.Device.Serial.{Pyserial}
use owon_xdm1041_server.Device.Serial.Threads.{
  Request, At, resetting, reading, finished, read_line, step, run,
}

-- A line on which all goes well: each call of the port succeeds, the meter has one reply to each
-- query, the same each time and there at once, what it has sent waits in order, and a read that
-- finds nothing runs into its timeout. Of what the meter sends after any other command nothing is
-- asked.
pub record IsResponsive (P : Pyserial) (port : P.Port) : Type 0 where
  pub reply : List ℕ → List ℕ
  pub pending : P.World → List (List ℕ)
  pub reset_lem :
      (w : P.World)
      → ((P.reset_input_buffer port w).0 ≡ ok tt) × (pending (P.reset_input_buffer port w).1 ≡ [])
  pub written : (bytes : List ℕ) (w : P.World) → (P.write port bytes w).0 ≡ ok tt
  pub replied :
      (bytes : List ℕ) (w : P.World)
      → has_text (codes "?") bytes ≡ true
      → pending (P.write port bytes w).1 ≡ pending w ++ (reply bytes ∷ [])
  pub flush_lem :
      (w : P.World) → ((P.flush port w).0 ≡ ok tt) × (pending (P.flush port w).1 ≡ pending w)
  pub timeout_lem :
      (t : ℕ) (w : P.World)
      → ((P.set_timeout port t w).0 ≡ ok tt) × (pending (P.set_timeout port t w).1 ≡ pending w)
  pub readline_some :
      (line : List ℕ) (rest : List (List ℕ)) (w : P.World)
      → pending w ≡ line ∷ rest
      → ((P.readline port w).0 ≡ ok line) × (pending (P.readline port w).1 ≡ rest)
  pub readline_none :
      (w : P.World)
      → pending w ≡ []
      → ((P.readline port w).0 ≡ ok []) × (pending (P.readline port w).1 ≡ [])

-- Two threads and the world they share.
pub record Both (P : Pyserial) : Type 0 where
  pub first : At
  pub second : At
  pub world : P.World

module _ (P : Pyserial) (port : P.Port) (a b : Request) where
  -- One step, of the first thread or of the second.
  turn : Bool → Both P → Both P
  turn true s = let at = step P port a (s.first, s.world) in record s { first = at.0; world = at.1 }
  turn false s =
      let at = step P port b (s.second, s.world) in record s { second = at.0; world = at.1 }

  pub turns : List Bool → Both P → Both P
  turns [] s = s
  turns (first ∷ rest) s = turns rest (turn first s)

-- The first thread is cancelled before its read, and reads after the second has written.
abbrev pub overlap : List Bool
overlap = true ∷ true ∷ true ∷ true ∷ false ∷ false ∷ false ∷ false ∷ true ∷ false ∷ []

module _ (P : Pyserial) (port : P.Port) (L : IsResponsive P port) where
  -- Up to the read: the reply waits, and nothing else does.
  run-before_read :
      (q : Request) (bytes : List ℕ) (w : P.World)
      → q.expect_response ≡ true
      → encode_ascii (q.command ++ (10 ∷ [])) ≡ some bytes
      → has_text (codes "?") bytes ≡ true
      → ((run P port q 4 (resetting, w)).0 ≡ reading)
        × (L.pending (run P port q 4 (resetting, w)).1 ≡ L.reply bytes ∷ [])
  unfolding run step
  run-before_read q bytes w x e asks =
      let w1 = (P.reset_input_buffer port w).1 in
      let w2 = (P.write port bytes w1).1 in
      let w3 = (P.flush port w2).1 in
      let h1 = L.reset_lem w in
      let h2 = L.written bytes w1 in
      let k2 = L.replied bytes w1 asks in
      let h3 = L.flush_lem w2 in let h4 = L.timeout_lem q.timeout w3 in (ground arith, ground arith)

  step-read :
      (q : Request) (line : List ℕ) (rest : List (List ℕ)) (at : At × P.World)
      → at.0 ≡ reading
      → L.pending at.1 ≡ line ∷ rest
      → ((step P port q at).0 ≡ read_line (ok line)) × (L.pending (step P port q at).1 ≡ rest)
  unfolding step
  step-read q line rest (p, w) e waits =
      let h = L.readline_some line rest w waits in (ground arith, ground arith)

  step-read_nothing :
      (q : Request) (at : At × P.World)
      → at.0 ≡ reading
      → L.pending at.1 ≡ []
      → (step P port q at).0 ≡ finished (err transport_error)
  unfolding step
  step-read_nothing q (p, w) e waits = let h = L.readline_none w waits in ground arith

  -- On a line on which all goes well, a query with a `?` whose thread runs alone returns the
  -- meter's reply to its own command, whatever waited on the line before.
  own_answer :
      (q : Request) (bytes : List ℕ) (w : P.World)
      → q.expect_response ≡ true
      → encode_ascii (q.command ++ (10 ∷ [])) ≡ some bytes
      → has_text (codes "?") bytes ≡ true
      → (run P port q 5 (resetting, w)).0 ≡ read_line (ok (L.reply bytes))
  unfolding run step
  own_answer q bytes w x e asks =
      let (at_read, waits) = run-before_read q bytes w x e asks in
      (step-read q (L.reply bytes) [] (run P port q 4 (resetting, w)) at_read waits).0

  -- On a line on which each call of the port succeeds, and the meter has one reply to each query, the
  -- same each time and there at once: for two queries of ASCII text whose commands have a `?`, where the thread of the cancelled
  -- query `a` reads only after the query `b` has cleared the input and written: the reply to `b`
  -- goes to the thread of `a`, and `b` raises `TransportError` although the meter has answered it.
  pub stolen_answer :
      (a b : Request) (bytes bytes' : List ℕ) (w : P.World)
      → a.expect_response ≡ true
      → b.expect_response ≡ true
      → encode_ascii (a.command ++ (10 ∷ [])) ≡ some bytes
      → encode_ascii (b.command ++ (10 ∷ [])) ≡ some bytes'
      → has_text (codes "?") bytes ≡ true
      → has_text (codes "?") bytes' ≡ true
      → let s =
          turns P port a b overlap (record { first = resetting; second = resetting; world = w }) in
        (s.first ≡ read_line (ok (L.reply bytes'))) × (s.second ≡ finished (err transport_error))
  unfolding turns turn run step
  stolen_answer a b bytes bytes' w xa xb ea eb qa qb =
      let a4 = run P port a 4 (resetting, w) in
      let b4 = run P port b 4 (resetting, a4.1) in
      let (a_reads, _) = run-before_read a bytes w xa ea qa in
      let (b_reads, waits) = run-before_read b bytes' a4.1 xb eb qb in
      let (first, left) = step-read a (L.reply bytes') [] (a4.0, b4.1) a_reads waits in
      (first, step-read_nothing b (b4.0, (step P port a (a4.0, b4.1)).1) b_reads left)
