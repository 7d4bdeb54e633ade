-- ===== src/Screenshots/Pages.antt =====
-- scripts/screenshot_ui.py: the browser that is driven through the pages, and the whole script.
pub mod Writes
pub mod Written
pub mod Cleared
mod Tests
use owon_xdm1041_server.Base.{
  ℕ, Option, none, some, List, [], ◌∷◌, ◌++◌, map, Action, Error, Result, system_exit, cancelled,
  pure, raise, lift, try_except, try_finally, ◌>>=◌, ◌>>◌, Text, codes,
}
use owon_xdm1041_server.Screenshots.Paths.{FilePath, child, path_text, relative_to}
use owon_xdm1041_server.Screenshots.{Network, Sockets, Processes, Script, mock_server}

-- What `capture` uses of playwright and of the file system: `goto` waits until the network is idle,
-- and `wait_for_function` takes a timeout where one is given.
pub record Browser (W : Type 0) : Type 1 where
  pub Playwright : Type 0
  pub Chromium : Type 0
  pub Context : Type 0
  pub Page : Type 0
  pub import_playwright : Action W (Unit {0})
  pub mkdir : FilePath → Action W (Unit {0})
  pub sync_playwright : Action W Playwright
  pub stop : Playwright → Action W (Unit {0})
  pub launch : Playwright → Action W Chromium
  pub new_context : Chromium → ℕ × ℕ → ℕ → Action W Context
  pub new_page : Context → Action W Page
  pub goto : Page → Text → Action W (Unit {0})
  pub wait_for_function : Page → Text → Option ℕ → Action W (Unit {0})
  pub wait_for_timeout : Page → ℕ → Action W (Unit {0})
  pub screenshot : Page → FilePath → Action W (Unit {0})
  pub close_context : Context → Action W (Unit {0})
  pub close_browser : Chromium → Action W (Unit {0})

-- `VIEWPORT`, as its width and its height.
abbrev pub viewport : ℕ × ℕ
viewport = (1100, 820)

-- `DEVICE_SCALE_FACTOR`
abbrev pub device_scale_factor : ℕ
device_scale_factor = 2

-- `SEED_SECONDS`
abbrev pub seed_milliseconds : ℕ
seed_milliseconds = 6000

-- `except Exception: raise SystemExit(...)`; `SystemExit` and a cancellation are no `Exception`.
abbrev pub on_launch_error : {W A : Type 0} → Error → Action W A
on_launch_error (system_exit code) = raise (system_exit code)
on_launch_error cancelled = raise cancelled
on_launch_error e = raise (system_exit 1)

abbrev pub dashboard_png : FilePath → FilePath
dashboard_png output_dir = child output_dir (codes "dashboard.png")

abbrev pub control_png : FilePath → FilePath
control_png output_dir = child output_dir (codes "control.png")

abbrev pub history_png : FilePath → FilePath
history_png output_dir = child output_dir (codes "history.png")

-- The scripts that `wait_for_function` evaluates.
abbrev pub first_reading : Text
first_reading = codes "document.getElementById('value').textContent.trim() !== '—'"

abbrev pub chart_drawn : Text
chart_drawn = codes "document.getElementById('empty').style.display === 'none'"

module _ {W : Type 0} (B : Browser W) where
  -- The dashboard, which stays open while the recorder gets readings.
  unfoldable pub capture_dashboard :
      B.Context → Text → FilePath → List FilePath → Action W (List FilePath)
  capture_dashboard context base_url output_dir written = do
    page ← B.new_page context
    B.goto page (base_url ++ codes "/")
    B.wait_for_function page first_reading none
    B.screenshot page (dashboard_png output_dir)
    B.wait_for_timeout page seed_milliseconds
    pure (written ++ (dashboard_png output_dir ∷ []))

  unfoldable pub capture_control :
      B.Context → Text → FilePath → List FilePath → Action W (List FilePath)
  capture_control context base_url output_dir written = do
    control ← B.new_page context
    B.goto control (base_url ++ codes "/control")
    B.screenshot control (control_png output_dir)
    pure (written ++ (control_png output_dir ∷ []))

  unfoldable pub capture_history :
      B.Context → Text → FilePath → List FilePath → Action W (List FilePath)
  capture_history context base_url output_dir written = do
    history ← B.new_page context
    B.goto history (base_url ++ codes "/history")
    B.wait_for_function history chart_drawn (some 10000)
    B.screenshot history (history_png output_dir)
    pure (written ++ (history_png output_dir ∷ []))

  -- The block with playwright.
  unfoldable pub capture_pages : B.Playwright → Text → FilePath → Action W (List FilePath)
  capture_pages pw base_url output_dir = do
    browser ← try_except (B.launch pw) on_launch_error
    context ← B.new_context browser viewport device_scale_factor
    written ← capture_dashboard context base_url output_dir []
    written ← capture_control context base_url output_dir written
    written ← capture_history context base_url output_dir written
    B.close_context context
    B.close_browser browser
    pure written

  -- `capture`
  unfoldable pub capture : Text → FilePath → Action W (List FilePath)
  capture base_url output_dir = do
    B.import_playwright
    B.mkdir output_dir
    pw ← B.sync_playwright
    try_finally (capture_pages pw base_url output_dir) (B.stop pw)

-- What `main` uses of tempfile.
pub record Temporary (W : Type 0) : Type 0 where
  pub create : Text → Action W FilePath
  pub cleanup : FilePath → Action W (Unit {0})

-- `DEFAULT_OUTPUT_DIR`
abbrev pub default_output_dir : Script → FilePath
default_output_dir script = child (child script.repo_root (codes "docs")) (codes "images")

-- `args.output_dir`, where --output-dir is given and where it is not.
abbrev pub output_dir_in : Script → Option FilePath → FilePath
output_dir_in script none = default_output_dir script
output_dir_in script (some output_dir) = output_dir

-- The line for a path: relative to the repository where it is inside.
abbrev pub path_line : FilePath → FilePath → Text
path_line repo_root path =
    codes "  " ++ path_text (elim (relative_to path repo_root) [ none ↦ path | some rel ↦ rel ])

-- What is printed after the block: nothing where it is still waiting for the server.
abbrev pub written_lines : FilePath → Option (List FilePath) → List Text
written_lines repo_root none = []
written_lines repo_root (some written) = codes "Wrote:" ∷ map (path_line repo_root) written

module _ {W : Type 0} (N : Network W) (S : Sockets W) (P : Processes W) (B : Browser W)
    (D : Temporary W) (script : Script) where
  -- The two `with` blocks of `main`.
  unfoldable pub take_screenshots : FilePath → Action W (Option (List FilePath))
  take_screenshots output_dir = do
    tmp ← D.create (codes "owon-shots-")
    try_finally
        (mock_server N S P script (child tmp (codes "screenshots.sqlite3"))
          λ base_url. capture B base_url output_dir)
        (D.cleanup tmp)

  -- `main`, where `parse_args` raises or returns what --output-dir was given: the lines that it
  -- prints before it returns 0.
  unfoldable pub main : Result (Option FilePath) → Action W (List Text)
  main parsed = do
    output_dir ← lift parsed
    written ← take_screenshots (output_dir_in script output_dir)
    pure (written_lines script.repo_root written)
