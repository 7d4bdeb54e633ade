-- ===== src/Screenshots/Cleanup.antt =====
-- The throwaway server does not outlive its block.
use owon_xdm1041_server.Base.{
  ◌+◌, ◌≡◌, ◌⊎◌, inl, inr, refl, ℕ, Bool, false, Option, none, some, Action, Result, ok, err, Text,
  resume, timeout_expired, runtime_error, arith,
}
use owon_xdm1041_server.Screenshots.{
  Network, Sockets, Processes, Script, wait_for_server, free_port, yielded, finish, launch,
  base_url, mock_server,
}
use owon_xdm1041_server.Screenshots.Paths.{FilePath}
use owon_xdm1041_server.Screenshots.Waiting.{IsNetwork, Ended, wait_for_server-Ended}

-- What Python documents: `wait` with a timeout returns when the process has ended or raises
-- `TimeoutExpired`; after `kill` a process does end, and `wait` returns.
pub record IsProcesses {W : Type 0} (P : Processes W) : Type 0 where
  pub running : P.Process → W → Bool
  pub waited :
      (proc : P.Process) (t : ℕ) (w : W)
      → (((P.wait proc (some t) w).0 ≡ ok tt) × (running proc (P.wait proc (some t) w).1 ≡ false))
        ⊎ ((P.wait proc (some t) w).0 ≡ err timeout_expired)
  pub killed :
      (proc : P.Process) (w : W)
      → let r = P.wait proc none (P.kill proc w) in (r.0 ≡ ok tt) × (running proc r.1 ≡ false)

module _ {W : Type 0} (P : Processes W) (L : IsProcesses P) where
  finish_lem :
      (proc : P.Process) (w : W)
      → let r = finish P proc w in (r.0 ≡ ok tt) × (L.running proc r.1 ≡ false)
  unfolding finish
  finish_lem proc w =
      let k = L.killed proc (P.wait proc (some 10000) (P.terminate proc w)).1 in
      elim (L.waited proc 10000 (P.terminate proc w)) [
        | inl (o, gone) ↦ (ground arith, ground arith)
        | inr late ↦ (ground (arith, k), ground (arith, k))
      ]

abbrev pub in_some : {A : Type 0} → Result A → Result (Option A)
in_some (ok a) = ok (some a)
in_some (err e) = err e

-- The rest of the block, by how the wait has ended.
yielded_lem :
    {W A : Type 0} (N : Network W) (C : IsNetwork N) (url : Text) (deadline : ℕ)
    (block : Action W A) (e : Result (Option (Unit {0})) × W)
    → Ended N C url deadline e
    → let r = resume (yielded block) e.0 e.1 in
      ((v v' : W) × (N.urlopen url 1000 v ≡ (ok 200, v')) × (r.0 ≡ in_some (block v').0))
      ⊎ (r.0 ≡ err runtime_error)
yielded_lem N C url deadline block e (inl (o, v, u)) = inl (v, e.1, u, rw o (ground arith))
yielded_lem N C url deadline block e (inr (o, late)) = inr (rw o refl)

module _ {W A : Type 0} (N : Network W) (S : Sockets W) (P : Processes W) (script : Script)
    (C : IsNetwork N) (L : IsProcesses P) where
  -- Over a clock, a network and processes that keep their documentation, where the address answers
  -- with no status but 200, once both ports are found and the server's process has been started:
  -- however the block inside `mock_server` ends, the process no longer runs, whether or not it
  -- heeds its termination. The block is run right after an answer with the status 200, and what it
  -- returned or raised is what comes out; or it is not run, as the server did not answer in time,
  -- and `RuntimeError` is raised.
  pub mock_server_stops :
      (db_path : FilePath) (block : Text → Action W A) (web_port scpi_port : ℕ) (proc : P.Process)
      (w w1 w2 w3 : W)
      → free_port S w ≡ (ok web_port, w1)
      → free_port S w1 ≡ (ok scpi_port, w2)
      → P.popen (launch N S P script web_port scpi_port db_path) w2 ≡ (ok proc, w3)
      → let url = base_url N S P script web_port in
        let r = mock_server N S P script db_path block w in
        ((v : W) (status : ℕ) → (N.urlopen url 1000 v).0 ≡ ok status → status ≡ 200)
        → (L.running proc r.1 ≡ false)
          × (((v v' : W) × (N.urlopen url 1000 v ≡ (ok 200, v')) × (r.0 ≡ in_some (block url v').0))
              ⊎ (r.0 ≡ err runtime_error))
  unfolding mock_server
  mock_server_stops db_path block web_port scpi_port proc w w1 w2 w3 web scpi started only =
      let url = base_url N S P script web_port in
      let e = wait_for_server N url 20000 w3 in
      let h = finish_lem P L proc (resume (yielded (block url)) e.0 e.1).1 in
      rw (web, scpi, started)
        (rw h.0 (
          h.1,
          yielded_lem N C url (N.monotonic w3 + 20000) (block url) e
              (wait_for_server-Ended N C url 20000 w3 only),
        ))
