-- ===== src/Screenshots.antt =====
-- scripts/screenshot_ui.py: the throwaway server and the wait for its start, over the clock, the
-- network and the processes of the system. Times are in milliseconds.
pub mod Paths
pub mod Waiting
pub mod Cleanup
pub mod Pages
use Prim.Native.Nat.{◌/◌}
use owon_xdm1041_server.Base.Numerals.{decimal}
use owon_xdm1041_server.Screenshots.Paths.{FilePath, path_text}
use owon_xdm1041_server.Base.{
  ℕ, zero, suc, ◌+◌, ◌==◌, ltb, Bool, true, false, Option, none, some, Action, Error, ok, err,
  url_error, timeout_expired, runtime_error, pure, raise, try_except, try_finally, List, [], ◌∷◌,
  ◌++◌, codes, text_eq, if◌then◌else◌, ◌>>=◌, ◌>>◌, Text,
}

-- What the wait uses of Python: `urlopen` returns the status of an answer.
pub record Network (W : Type 0) : Type 0 where
  pub monotonic : W → ℕ
  pub urlopen : Text → ℕ → Action W ℕ
  pub sleep : ℕ → W → W

module _ {W : Type 0} (N : Network W) where
  -- `except (URLError, OSError)`, and the sleep that follows.
  abbrev pub on_url_error : Error → Action W Bool
  on_url_error url_error w = (ok false, N.sleep 250 w)
  on_url_error e w = (err e, w)

  -- One round of the loop: whether the server answered with the status 200.
  abbrev pub round : Text → Action W Bool
  round base_url =
      try_except (do status ← N.urlopen base_url 1000; pure (status == 200)) on_url_error

  -- What follows a round: `return`, or `continue`.
  abbrev pub answered : Action W (Option (Unit {0})) → Bool → Action W (Option (Unit {0}))
  answered continue true = pure (some tt)
  answered continue false = continue

  -- A round where the deadline is not reached, and else the error after the loop.
  abbrev pub before_deadline : Bool → Action W (Option (Unit {0})) → Action W (Option (Unit {0}))
  before_deadline true m = m
  before_deadline false m = raise runtime_error

  -- The loop, up to so many rounds: `none` stands for a loop that is still going.
  unfoldable pub wait_until : ℕ → ℕ → Text → Action W (Option (Unit {0}))
  wait_until zero deadline base_url w = (ok none, w)
  wait_until (suc rounds) deadline base_url w =
      before_deadline (ltb (N.monotonic w) deadline)
        (do b ← round base_url; answered (wait_until rounds deadline base_url) b) w

  -- `_wait_for_server`, with a round for each sleep that the timeout has room for, and one more.
  unfoldable pub wait_for_server : Text → ℕ → Action W (Option (Unit {0}))
  unfolding wait_until
  wait_for_server base_url timeout w =
      wait_until (suc (suc (timeout / 250))) (N.monotonic w + timeout) base_url w

-- What `_free_port` uses of a socket.
pub record Sockets (W : Type 0) : Type 1 where
  pub Socket : Type 0
  pub socket : Action W Socket
  pub bind : Socket → Text → ℕ → Action W (Unit {0})
  pub getsockname : Socket → Action W (Text × ℕ)
  pub close : Socket → Action W (Unit {0})

abbrev pub localhost : Text
localhost = codes "127.0.0.1"

-- `_free_port`
unfoldable pub free_port : {W : Type 0} → Sockets W → Action W ℕ
free_port S = do
  sock ← S.socket
  try_finally (do S.bind sock localhost 0; name ← S.getsockname sock; pure name.1) (S.close sock)

-- The environment of a process: the value of each variable that is set.
abbrev pub Environment : Type 0
Environment = Text → Option Text

-- A dict's items over those that it had.
abbrev pub updated : List (Text × Text) → Environment → Environment
updated [] environment name = environment name
updated ((key, value) ∷ items) environment name =
    let before = updated items environment name in if text_eq key name then some value else before

-- The variables that `mock_server` sets.
unfoldable pub server_variables : ℕ → ℕ → Text → List (Text × Text)
server_variables web_port scpi_port db_path =
    (codes "OWON_USE_MOCK", codes "true")
    ∷ (codes "OWON_WEB_HOST", localhost)
    ∷ (codes "OWON_WEB_PORT", decimal web_port)
    ∷ (codes "OWON_SCPI_HOST", localhost)
    ∷ (codes "OWON_SCPI_PORT", decimal scpi_port)
    ∷ (codes "OWON_DATABASE_PATH", db_path)
    ∷ (codes "OWON_POLL_INTERVAL", codes "0.25")
    ∷ []

-- The arguments of `subprocess.Popen`.
pub record Launch : Type 0 where
  pub args : List Text
  pub env : Environment
  pub cwd : Text

-- What `mock_server` uses of a process: `wait` without a timeout waits for as long as it takes.
pub record Processes (W : Type 0) : Type 1 where
  pub Process : Type 0
  pub popen : Launch → Action W Process
  pub terminate : Process → W → W
  pub kill : Process → W → W
  pub wait : Process → Option ℕ → Action W (Unit {0})

-- `SERVER_START_TIMEOUT`
abbrev pub server_start_timeout : ℕ
server_start_timeout = 20000

-- The rest of a `with` block, once the wait for the server has returned.
abbrev pub yielded : {W A : Type 0} → Action W A → Option (Unit {0}) → Action W (Option A)
yielded block none = pure none
yielded block (some u) = do a ← block; pure (some a)

module _ {W : Type 0} (P : Processes W) where
  -- `except subprocess.TimeoutExpired`
  abbrev pub on_timeout : P.Process → Error → Action W (Unit {0})
  on_timeout proc timeout_expired w = P.wait proc none (P.kill proc w)
  on_timeout proc e w = (err e, w)

  -- The `finally` block of `mock_server`.
  unfoldable pub finish : P.Process → Action W (Unit {0})
  finish proc w = try_except (P.wait proc (some 10000)) (on_timeout proc) (P.terminate proc w)

-- What the script is run with: `os.environ`, `sys.executable` and `REPO_ROOT`.
pub record Script : Type 0 where
  pub environ : Environment
  pub executable : Text
  pub repo_root : FilePath

module _ {W : Type 0} (N : Network W) (S : Sockets W) (P : Processes W) (script : Script) where
  unfoldable pub launch : ℕ → ℕ → FilePath → Launch
  unfolding server_variables
  launch web_port scpi_port db_path = record {
    args =
        script.executable
        ∷ codes "-m"
        ∷ codes "owon_xdm1041_server"
        ∷ codes "serve"
        ∷ codes "--mock"
        ∷ [];
    env = updated (server_variables web_port scpi_port (path_text db_path)) script.environ;
    cwd = path_text script.repo_root;
  }

  -- `f"http://127.0.0.1:{web_port}"`
  abbrev pub base_url : ℕ → Text
  base_url web_port = codes "http://127.0.0.1:" ++ decimal web_port

  -- `mock_server` around a block, to which it yields the address.
  unfoldable pub mock_server : {A : Type 0} → FilePath → (Text → Action W A) → Action W (Option A)
  mock_server db_path block = do
    web_port ← free_port S
    scpi_port ← free_port S
    proc ← P.popen (launch web_port scpi_port db_path)
    try_finally
        (do
          r ← wait_for_server N (base_url web_port) server_start_timeout
          yielded (block (base_url web_port)) r)
        (finish P proc)
