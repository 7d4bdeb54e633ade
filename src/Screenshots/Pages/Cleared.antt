-- ===== src/Screenshots/Pages/Cleared.antt =====
-- What the script leaves behind.
use owon_xdm1041_server.Base.{
  ◌≡◌, ◌⊎◌, inl, inr, refl, ap, ◌∙◌, ℕ, Bool, false, Option, some, List, Error, Result, ok, err,
  pure, resume, restored, runtime_error, Text, codes,
}
use owon_xdm1041_server.Screenshots.{
  Network, Sockets, Processes, Script, free_port, launch, base_url, mock_server,
}
use owon_xdm1041_server.Screenshots.Cleanup.{IsProcesses, in_some, mock_server_stops}
use owon_xdm1041_server.Screenshots.Pages.{
  Browser, Temporary, capture, written_lines, take_screenshots, output_dir_in, main,
}
use owon_xdm1041_server.Screenshots.Pages.Written.{IsBrowser, pngs, capture-Writes}
use owon_xdm1041_server.Screenshots.Paths.{FilePath, child}
use owon_xdm1041_server.Screenshots.Waiting.{IsNetwork}

-- Cleaning a temporary directory up returns, with the directory gone and no process started.
pub record IsTemporary {W : Type 0} {P : Processes W} (L : IsProcesses P) (D : Temporary W)
    : Type 0 where
  pub exists : FilePath → W → Bool
  pub cleaned :
      (tmp : FilePath) (w : W)
      → ((D.cleanup tmp w).0 ≡ ok tt) × (exists tmp (D.cleanup tmp w).1 ≡ false)
  pub left :
      (tmp : FilePath) (proc : P.Process) (w : W)
      → L.running proc w ≡ false
      → L.running proc (D.cleanup tmp w).1 ≡ false

module _ {W : Type 0} (N : Network W) (S : Sockets W) (P : Processes W) (B : Browser W)
    (D : Temporary W) (script : Script) (C : IsNetwork N) (L : IsProcesses P) (K : IsBrowser B)
    (M : IsTemporary L D) where
  -- The three files, or an exception.
  captured_cases :
      (url : Text) (output_dir : FilePath) (w : W)
      → ((capture B url output_dir w).0 ≡ ok (pngs B K output_dir))
        ⊎ ((e : Error) × ((capture B url output_dir w).0 ≡ err e))
  captured_cases url output_dir w =
      let (new, rest, split, grown, ends) = capture-Writes B K url output_dir w tt in
      elim ends [
        | inl (paths, returned, same, done) ↦ inl (returned ∙ ap ok same)
        | inr raised ↦ inr raised
      ]

  -- What `main` prints, by how its `with` blocks have ended.
  printed_cases :
      (root : FilePath) (paths : List FilePath) (r : Result (Option (List FilePath)))
      (c : Result (Unit {0})) (v : W)
      → c ≡ ok tt
      → (r ≡ ok (some paths)) ⊎ ((e : Error) × (r ≡ err e))
      → let z : Result (List Text) × W =
          resume (λ written. pure (written_lines root written)) (restored r c) v in
        (z.1 ≡ v) × ((z.0 ≡ ok (written_lines root (some paths))) ⊎ ((e : Error) × (z.0 ≡ err e)))
  printed_cases root paths r c v cleaned (inl returned) = rw (cleaned, returned) (refl, inl refl)
  printed_cases root paths r c v cleaned (inr (e, raised)) =
      rw (cleaned, raised) (refl, inr (e, refl))

  server_cases :
      (output_dir : FilePath) (url : Text) (r : Result (Option (List FilePath)))
      → ((v v' : W) × (N.urlopen url 1000 v ≡ (ok 200, v'))
          × (r ≡ in_some (capture B url output_dir v').0))
        ⊎ (r ≡ err runtime_error)
      → (r ≡ ok (some (pngs B K output_dir))) ⊎ ((e : Error) × (r ≡ err e))
  server_cases output_dir url r (inl (v, v', answered, e)) =
      elim (captured_cases url output_dir v') [
        | inl returned ↦ inl (e ∙ ap in_some returned)
        | inr (x, raised) ↦ inr (x, e ∙ ap in_some raised)
      ]
  server_cases output_dir url r (inr late) = inr (runtime_error, late)

  -- Over a system and a browser that keep their documentation, where the address answers with no
  -- status but 200: once the temporary directory and both ports are there and the server's process
  -- has been started, and however the rest goes: the process no longer runs and the directory is
  -- gone; and either an exception is raised, or the lines for just the three files, in the output
  -- directory that was given or else in the default one, are printed.
  pub main_clears :
      (given : Option FilePath) (tmp : FilePath) (web_port scpi_port : ℕ) (proc : P.Process)
      (w w1 w2 w3 w4 : W)
      → D.create (codes "owon-shots-") w ≡ (ok tmp, w1)
      → free_port S w1 ≡ (ok web_port, w2)
      → free_port S w2 ≡ (ok scpi_port, w3)
      → P.popen
          (launch N S P script web_port scpi_port (child tmp (codes "screenshots.sqlite3")))
          w3
        ≡ (ok proc, w4)
      → let r = main N S P B D script (ok given) w in
        ((v : W) (status : ℕ)
          → (N.urlopen (base_url N S P script web_port) 1000 v).0 ≡ ok status
          → status ≡ 200)
        → (L.running proc r.1 ≡ false)
          × (M.exists tmp r.1 ≡ false)
          × ((r.0
                ≡ ok
                    (written_lines script.repo_root (some (pngs B K (output_dir_in script given)))))
              ⊎ ((e : Error) × (r.0 ≡ err e)))
  unfolding main take_screenshots
  main_clears given tmp web_port scpi_port proc w w1 w2 w3 w4 made web scpi started only =
      let output_dir = output_dir_in script given in
      let url = base_url N S P script web_port in
      let server =
        mock_server N S P script (child tmp (codes "screenshots.sqlite3"))
          (λ url. capture B url output_dir) w1 in
      let (stopped, outcome) =
        mock_server_stops N S P script C L (child tmp (codes "screenshots.sqlite3"))
          (λ url. capture B url output_dir) web_port scpi_port proc w1 w2 w3 w4 web scpi started
          only in
      let (returned, gone) = M.cleaned tmp server.1 in
      let (same, ends) =
        printed_cases script.repo_root (pngs B K output_dir) server.0 (D.cleanup tmp server.1).0
          (D.cleanup tmp server.1).1 returned (server_cases output_dir url server.0 outcome) in
      rw made (rw same (M.left tmp proc server.1 stopped, gone, ends))
