-- ===== src/Screenshots/Pages/Tests.antt =====
-- The theorems about the script, on a desk where the server answers after 0.6 seconds and its
-- process does not heed its termination.
use owon_xdm1041_server.Base.{
  ◌≡◌, ◌⊎◌, inl, inr, refl, ℕ, ◌+◌, Bool, true, false, Option, none, some, List, [], ◌∷◌, ◌++◌,
  Error, Result, ok, err, timeout_expired, url_error, ltb, codes, arith,
}
use owon_xdm1041_server.Screenshots.{Network, Sockets, Processes, Script, free_port}
use owon_xdm1041_server.Screenshots.Cleanup.{IsProcesses}
use owon_xdm1041_server.Screenshots.Pages.{Browser, Temporary, capture, written_lines, main}
use owon_xdm1041_server.Screenshots.Pages.Cleared.{IsTemporary, main_clears}
use owon_xdm1041_server.Screenshots.Pages.Written.{
  IsBrowser, View, Shot, shots, pngs, capture-Writes,
}
use owon_xdm1041_server.Screenshots.Pages.Writes.{Written}
use owon_xdm1041_server.Screenshots.Paths.{FilePath}
use owon_xdm1041_server.Screenshots.Waiting.{IsNetwork}

record Desk : Type 0 where
  clock : ℕ
  runs : Bool
  files : List Shot
  page : View
  directory : Bool

abbrev status_at : Bool → Result ℕ
status_at true = err url_error
status_at false = ok 200

abbrev starting : Network Desk
starting = record {
  monotonic = λ w. w.clock;
  urlopen = λ url t w. (status_at (ltb w.clock 600), w);
  sleep = λ t w. record w { clock = w.clock + t };
}

status_cases :
    (b : Bool) → ((status : ℕ) × (status_at b ≡ ok status)) ⊎ (status_at b ≡ err url_error)
status_cases true = inr refl
status_cases false = inl (200, refl)

only_200 : (b : Bool) (status : ℕ) → status_at b ≡ ok status → status ≡ 200
only_200 true status h = absurd cc
only_200 false status h = cc

starting-IsNetwork : IsNetwork starting
starting-IsNetwork = record {
  steady = λ url t w. omega arith;
  slept = λ t w. omega arith;
  opened = λ url t w. status_cases (ltb w.clock 600);
}

abbrev one_port : Sockets Desk
one_port = record {
  Socket = Unit {0};
  socket = λ w. (ok tt, w);
  bind = λ sock host port w. (ok tt, w);
  getsockname = λ sock w. (ok (codes "127.0.0.1", 8765), w);
  close = λ sock w. (ok tt, w);
}

-- A process that has to be killed.
abbrev wait_stubborn : Option ℕ → Bool → Result (Unit {0})
wait_stubborn none runs = ok tt
wait_stubborn (some t) true = err timeout_expired
wait_stubborn (some t) false = ok tt

abbrev stubborn : Processes Desk
stubborn = record {
  Process = Unit {0};
  popen = λ launch w. (ok tt, record w { runs = true });
  terminate = λ proc w. w;
  kill = λ proc w. record w { runs = false };
  wait = λ proc t w. (wait_stubborn t w.runs, w);
}

stubborn_cases :
    (t : ℕ) (runs : Bool)
    → ((wait_stubborn (some t) runs ≡ ok tt) × (runs ≡ false))
      ⊎ (wait_stubborn (some t) runs ≡ err timeout_expired)
stubborn_cases t true = inr refl
stubborn_cases t false = inl (refl, refl)

abbrev stubborn-IsProcesses : IsProcesses stubborn
stubborn-IsProcesses = record {
  running = λ proc w. w.runs;
  waited = λ proc t w. stubborn_cases t w.runs;
  killed = λ proc w. (refl, refl);
}

abbrev headless : Browser Desk
headless = record {
  Playwright = Unit {0};
  Chromium = Unit {0};
  Context = Unit {0};
  Page = Unit {0};
  import_playwright = λ w. (ok tt, w);
  mkdir = λ path w. (ok tt, w);
  sync_playwright = λ w. (ok tt, w);
  stop = λ pw w. (ok tt, w);
  launch = λ pw w. (ok tt, w);
  new_context = λ browser viewport scale w. (ok tt, w);
  new_page = λ context w. (ok tt, w);
  goto = λ page url w. (ok tt, record w { page = record { url = url; awaited = [] } });
  wait_for_function = λ page script t w. (
    ok tt,
    record w { page = record { url = w.page.url; awaited = w.page.awaited ++ (script ∷ []) } },
  );
  wait_for_timeout = λ page t w. (ok tt, record w { clock = w.clock + t });
  screenshot = λ page path w.
      (ok tt, record w { files = w.files ++ (record { path = path; view = w.page } ∷ []) });
  close_context = λ context w. (ok tt, w);
  close_browser = λ browser w. (ok tt, w);
}

abbrev headless-IsBrowser : IsBrowser headless
headless-IsBrowser = record {
  saved = λ w. w.files;
  shows = λ page w. w.page;
  shot = λ page path w. inl (refl, refl);
  imported = λ w. refl;
  made = λ path w. refl;
  started = λ w. refl;
  stopped = λ pw w. (refl, refl);
  launched = λ pw w. refl;
  context_made = λ browser viewport scale w. refl;
  page_made = λ context w. refl;
  gone = λ page url w. refl;
  arrived = λ page url w e. refl;
  evaluated = λ page script t w. refl;
  found_true = λ page script t w e. refl;
  waited = λ page t w. refl;
  context_closed = λ context w. refl;
  browser_closed = λ browser w. refl;
}

abbrev scratch : FilePath
scratch = record { absolute = true; parts = codes "tmp" ∷ codes "owon-shots-1" ∷ [] }

abbrev shelf : Temporary Desk
shelf = record {
  create = λ prefix w. (ok scratch, record w { directory = true });
  cleanup = λ path w. (ok tt, record w { directory = false });
}

abbrev shelf-IsTemporary : IsTemporary stubborn-IsProcesses shelf
shelf-IsTemporary = record {
  exists = λ path w. w.directory;
  cleaned = λ tmp w. (refl, refl);
  left = λ tmp proc w h. h;
}

abbrev script : Script
script = record {
  environ = λ name. none;
  executable = codes "python3";
  repo_root = record { absolute = true; parts = codes "src" ∷ [] };
}

abbrev images : FilePath
images = record { absolute = true; parts = codes "src" ∷ codes "docs" ∷ codes "images" ∷ [] }

abbrev blank : View
blank = record { url = codes "about:blank"; awaited = [] }

abbrev morning : Desk
morning = record { clock = 0; runs = false; files = []; page = blank; directory = false }

capture-Writes_example :
    Written headless-IsBrowser.saved
      (λ paths w. paths ≡ pngs headless headless-IsBrowser images)
      (shots (codes "http://127.0.0.1:8765") images)
      (capture headless (codes "http://127.0.0.1:8765") images morning)
      morning
capture-Writes_example =
    capture-Writes headless headless-IsBrowser (codes "http://127.0.0.1:8765") images morning tt

abbrev served : Desk
served = record { clock = 0; runs = true; files = []; page = blank; directory = true }

abbrev prepared : Desk
prepared = record { clock = 0; runs = false; files = []; page = blank; directory = true }

main_clears_example :
    let r = main starting one_port stubborn headless shelf script (ok (some images)) morning in
    (r.1.runs ≡ false)
    × (r.1.directory ≡ false)
    × ((r.0 ≡ ok (written_lines script.repo_root (some (pngs headless headless-IsBrowser images))))
        ⊎ ((e : Error) × (r.0 ≡ err e)))
main_clears_example =
    main_clears starting one_port stubborn headless shelf script starting-IsNetwork
      stubborn-IsProcesses headless-IsBrowser shelf-IsTemporary (some images) scratch 8765 8765 tt
      morning prepared prepared prepared served refl (unfold free_port in refl)
      (unfold free_port in refl) refl (λ v status h. only_200 (ltb v.clock 600) status h)
