-- ===== src/Screenshots/Pages/Written.antt =====
-- The screenshots that are written.
use mathlib.Core.List.{append-nil}
use owon_xdm1041_server.Base.{
  Option, none, some, ◌≡◌, ◌⊎◌, inl, inr, refl, sym, ap, ◌∙◌, ℕ, List, [], ◌∷◌, ◌++◌, Action, Error,
  Result, ok, err, recover, restored, try_except, ◌>>=◌, ◌>>◌, Text, codes, arith,
}
use owon_xdm1041_server.Screenshots.Paths.{FilePath}
use owon_xdm1041_server.Screenshots.Pages.{
  Browser, on_launch_error, dashboard_png, control_png, history_png, capture_dashboard,
  capture_control, capture_history, capture_pages, capture, first_reading, chart_drawn,
}
use owon_xdm1041_server.Screenshots.Pages.Writes.{
  Quiet, Written, Writes, Any, then-Writes, Quiet-then, skip-Writes, known, pure-Writes,
}

-- What a page shows: the address that it came to, and the scripts that have been found true there.
pub record View : Type 0 where
  pub url : Text
  pub awaited : List Text

-- A file, with what the page showed that it is of.
pub record Shot : Type 0 where
  pub path : FilePath
  pub view : View

-- What playwright documents: a screenshot that returns has written its file, of the page as it is,
-- and one that raises has not; nothing else writes a file; a page is at the address that `goto` has
-- returned from, and the script is true there that `wait_for_function` has returned from; and
-- stopping returns.
pub record IsBrowser {W : Type 0} (B : Browser W) : Type 0 where
  pub saved : W → List Shot
  pub shows : B.Page → W → View
  pub shot :
      (page : B.Page) (path : FilePath) (w : W)
      → let r = B.screenshot page path w in
        ((r.0 ≡ ok tt)
          × (saved r.1 ≡ saved w ++ (record { path = path; view = shows page w } ∷ [])))
        ⊎ ((e : Error) × (r.0 ≡ err e) × (saved r.1 ≡ saved w))
  pub imported : Quiet saved B.import_playwright
  pub made : (path : FilePath) → Quiet saved (B.mkdir path)
  pub started : Quiet saved B.sync_playwright
  pub stopped :
      (pw : B.Playwright) (w : W) → let r = B.stop pw w in (r.0 ≡ ok tt) × (saved r.1 ≡ saved w)
  pub launched : (pw : B.Playwright) → Quiet saved (B.launch pw)
  pub context_made :
      (browser : B.Chromium) (viewport : ℕ × ℕ) (scale : ℕ)
      → Quiet saved (B.new_context browser viewport scale)
  pub page_made : (context : B.Context) → Quiet saved (B.new_page context)
  pub gone : (page : B.Page) (url : Text) → Quiet saved (B.goto page url)
  pub arrived :
      (page : B.Page) (url : Text) (w : W)
      → (B.goto page url w).0 ≡ ok tt
      → shows page (B.goto page url w).1 ≡ record { url = url; awaited = [] }
  pub evaluated :
      (page : B.Page) (script : Text) (t : Option ℕ)
      → Quiet saved (B.wait_for_function page script t)
  pub found_true :
      (page : B.Page) (script : Text) (t : Option ℕ) (w : W)
      → (B.wait_for_function page script t w).0 ≡ ok tt
      → shows page (B.wait_for_function page script t w).1
        ≡ record (shows page w) { awaited = (shows page w).awaited ++ (script ∷ []) }
  pub waited : (page : B.Page) (t : ℕ) → Quiet saved (B.wait_for_timeout page t)
  pub context_closed : (context : B.Context) → Quiet saved (B.close_context context)
  pub browser_closed : (browser : B.Chromium) → Quiet saved (B.close_browser browser)

-- The three screenshots: the dashboard once it has a reading, the control panel, and the history
-- once its chart is drawn.
abbrev pub dashboard_shot : Text → FilePath → Shot
dashboard_shot base_url output_dir = record {
  path = dashboard_png output_dir;
  view = record { url = base_url ++ codes "/"; awaited = first_reading ∷ [] };
}

abbrev pub control_shot : Text → FilePath → Shot
control_shot base_url output_dir = record {
  path = control_png output_dir;
  view = record { url = base_url ++ codes "/control"; awaited = [] };
}

abbrev pub history_shot : Text → FilePath → Shot
history_shot base_url output_dir = record {
  path = history_png output_dir;
  view = record { url = base_url ++ codes "/history"; awaited = chart_drawn ∷ [] };
}

abbrev pub shots : Text → FilePath → List Shot
shots base_url output_dir =
    dashboard_shot base_url output_dir
    ∷ control_shot base_url output_dir
    ∷ history_shot base_url output_dir
    ∷ []

module _ {W : Type 0} (B : Browser W) (L : IsBrowser B) where
  -- The page shows this.
  Shows : B.Page → View → W → Type 0
  Shows page view w = L.shows page w ≡ view

  shot-Writes :
      (page : B.Page) (path : FilePath) (view : View)
      → Writes L.saved
          (Shows page view)
          (λ (u : Unit {0}) w. Unit {0})
          (record { path = path; view = view } ∷ [])
          (B.screenshot page path)
  unfolding Shows
  shot-Writes page path view w at = elim (L.shot page path w) [
    | inl (e, grown) ↦ (
      record { path = path; view = view } ∷ [],
      [],
      refl,
      grown ∙ ap (λ v. L.saved w ++ (record { path = path; view = v } ∷ [])) at,
      inl (tt, e, tt, refl),
    )
    | inr (x, e, same) ↦ (
      [],
      record { path = path; view = view } ∷ [],
      refl,
      same ∙ sym (append-nil (L.saved w)),
      inr (x, e),
    )
  ]

  -- A new page at an address.
  page_then :
      {A : Type 0} (Post : A → W → Type 0) (files : List Shot) (context : B.Context) (url : Text)
      (f : B.Page → Action W A)
      → ((page : B.Page)
          → Writes L.saved (Shows page (record { url = url; awaited = [] })) Post files (f page))
      → Writes L.saved
          (Any L.saved)
          Post
          files
          (do page ← B.new_page context; B.goto page url; f page)
  page_then Post files context url f h =
      skip-Writes L.saved Post files (B.new_page context) _ (L.page_made context) λ page.
        Quiet-then L.saved (Any L.saved) (λ u. Shows page (record { url = url; awaited = [] })) Post
          files (B.goto page url) _ (L.gone page url)
          (λ w a pre e. unfold Shows in L.arrived page url w e) λ u. h page

  -- The wait for a script on a page on which none has been awaited.
  wait_then :
      {A : Type 0} (Post : A → W → Type 0) (files : List Shot) (page : B.Page) (url script : Text)
      (t : Option ℕ) (f : Unit {0} → Action W A)
      → ((u : Unit {0})
          → Writes L.saved
              (Shows page (record { url = url; awaited = script ∷ [] }))
              Post
              files
              (f u))
      → Writes L.saved
          (Shows page (record { url = url; awaited = [] }))
          Post
          files
          (B.wait_for_function page script t >>= f)
  wait_then Post files page url script t f h =
      Quiet-then L.saved (Shows page (record { url = url; awaited = [] }))
        (λ u. Shows page (record { url = url; awaited = script ∷ [] })) Post files
        (B.wait_for_function page script t) f (L.evaluated page script t)
        (λ w a at e.
          unfold Shows in
          L.found_true page script t w e
          ∙ ap (λ (v : View). record v { awaited = v.awaited ++ (script ∷ []) }) at)
        h

  -- The paths so far, with one more.
  abbrev Extends : List FilePath → FilePath → List FilePath → W → Type 0
  Extends written path paths w = paths ≡ written ++ (path ∷ [])

  dashboard-Writes :
      (context : B.Context) (base_url : Text) (output_dir : FilePath) (written : List FilePath)
      → Writes L.saved
          (Any L.saved)
          (Extends written (dashboard_png output_dir))
          (dashboard_shot base_url output_dir ∷ [])
          (capture_dashboard B context base_url output_dir written)
  unfolding capture_dashboard
  dashboard-Writes context base_url output_dir written =
      let path = dashboard_png output_dir in
      let url = base_url ++ codes "/" in
      let files = dashboard_shot base_url output_dir ∷ [] in
      page_then (Extends written path) files context url _ λ page.
        wait_then (Extends written path) files page url first_reading none _ λ u.
          then-Writes L.saved {Post = λ (u : Unit {0}) w. Unit {0}} (Extends written path) files []
            (B.screenshot page path) _
            (shot-Writes page path (record { url = url; awaited = first_reading ∷ [] }))
            λ v.
              skip-Writes L.saved (Extends written path) [] (B.wait_for_timeout page 6000) _
                (L.waited page 6000)
                λ x.
                  pure-Writes L.saved (Any L.saved) (Extends written path) (written ++ (path ∷ []))
                    λ w. refl

  control-Writes :
      (context : B.Context) (base_url : Text) (output_dir : FilePath) (written : List FilePath)
      → Writes L.saved
          (Any L.saved)
          (Extends written (control_png output_dir))
          (control_shot base_url output_dir ∷ [])
          (capture_control B context base_url output_dir written)
  unfolding capture_control
  control-Writes context base_url output_dir written =
      let path = control_png output_dir in
      let url = base_url ++ codes "/control" in
      let files = control_shot base_url output_dir ∷ [] in
      page_then (Extends written path) files context url _ λ page.
        then-Writes L.saved {Post = λ (u : Unit {0}) w. Unit {0}} (Extends written path) files []
          (B.screenshot page path) _ (shot-Writes page path (record { url = url; awaited = [] }))
          λ v.
            pure-Writes L.saved (Any L.saved) (Extends written path) (written ++ (path ∷ []))
              λ w. refl

  history-Writes :
      (context : B.Context) (base_url : Text) (output_dir : FilePath) (written : List FilePath)
      → Writes L.saved
          (Any L.saved)
          (Extends written (history_png output_dir))
          (history_shot base_url output_dir ∷ [])
          (capture_history B context base_url output_dir written)
  unfolding capture_history
  history-Writes context base_url output_dir written =
      let path = history_png output_dir in
      let url = base_url ++ codes "/history" in
      let files = history_shot base_url output_dir ∷ [] in
      page_then (Extends written path) files context url _ λ page.
        wait_then (Extends written path) files page url chart_drawn (some 10000) _ λ u.
          then-Writes L.saved {Post = λ (u : Unit {0}) w. Unit {0}} (Extends written path) files []
            (B.screenshot page path) _
            (shot-Writes page path (record { url = url; awaited = chart_drawn ∷ [] }))
            λ v.
              pure-Writes L.saved (Any L.saved) (Extends written path) (written ++ (path ∷ []))
                λ w. refl

  launch-Quiet : (pw : B.Playwright) → Quiet L.saved (try_except (B.launch pw) on_launch_error)
  launch-Quiet pw w = ap L.saved (caught (B.launch pw w).0 (B.launch pw w).1) ∙ L.launched pw w
    where
      caught : (r : Result B.Chromium) (v : W) → (recover on_launch_error r v).1 ≡ v
      caught r v = ground arith

  -- The three files, in order.
  abbrev pub pngs : FilePath → List FilePath
  pngs output_dir = dashboard_png output_dir ∷ control_png output_dir ∷ history_png output_dir ∷ []

  pages-Writes :
      (pw : B.Playwright) (base_url : Text) (output_dir : FilePath)
      → Writes L.saved
          (Any L.saved)
          (λ ps w. ps ≡ pngs output_dir)
          (shots base_url output_dir)
          (capture_pages B pw base_url output_dir)
  unfolding capture_pages
  pages-Writes pw base_url output_dir =
      let Post = λ (ps : List FilePath) (w : W). ps ≡ pngs output_dir in
      let d = dashboard_shot base_url output_dir in
      let c = control_shot base_url output_dir in
      let h = history_shot base_url output_dir in
      skip-Writes L.saved Post (d ∷ c ∷ h ∷ []) (try_except (B.launch pw) on_launch_error) _
        (launch-Quiet pw)
        λ browser.
          skip-Writes L.saved Post (d ∷ c ∷ h ∷ []) (B.new_context browser (1100, 820) 2) _
            (L.context_made browser (1100, 820) 2)
            λ context.
              then-Writes L.saved Post (d ∷ []) (c ∷ h ∷ [])
                (capture_dashboard B context base_url output_dir []) _
                (dashboard-Writes context base_url output_dir [])
                λ one.
                  known L.saved Post (c ∷ h ∷ []) _
                    λ (is_one : one ≡ [] ++ (dashboard_png output_dir ∷ [])).
                      then-Writes L.saved Post (c ∷ []) (h ∷ [])
                        (capture_control B context base_url output_dir one) _
                        (control-Writes context base_url output_dir one)
                        λ two.
                          known L.saved Post (h ∷ []) _
                            λ (is_two : two ≡ one ++ (control_png output_dir ∷ [])).
                              then-Writes L.saved Post (h ∷ []) []
                                (capture_history B context base_url output_dir two) _
                                (history-Writes context base_url output_dir two)
                                λ three.
                                  known L.saved Post [] _
                                    λ (is_three : three ≡ two ++ (history_png output_dir ∷ [])).
                                      skip-Writes L.saved Post [] (B.close_context context) _
                                        (L.context_closed context)
                                        λ u.
                                          skip-Writes L.saved Post [] (B.close_browser browser) _
                                            (L.browser_closed browser)
                                            λ v.
                                              pure-Writes L.saved (Any L.saved) Post three
                                                λ w. rw (is_three, is_two, is_one) refl

  finally-Written :
      (pw : B.Playwright) (paths : List FilePath) (files : List Shot)
      (r : Result (List FilePath) × W) (w : W)
      → Written L.saved (λ ps v. ps ≡ paths) files r w
      → Written L.saved
          (λ ps v. ps ≡ paths)
          files
          (let q = B.stop pw r.1 in (restored r.0 q.0, q.1))
          w
  finally-Written pw paths files (r, v) w (new, rest, split, grown, ends) =
      let (returned, same) = L.stopped pw v in rw returned (new, rest, split, same ∙ grown, ends)

  -- Over a browser that keeps its documentation: what `capture` writes is, in order, a beginning of
  -- the screenshots in the output directory of the dashboard, once it has its first reading, of the
  -- control panel, and of the history, once its chart is drawn, each at its address below the base;
  -- it is all three, and their paths are what `capture` returns, unless it raises.
  pub capture-Writes :
      (base_url : Text) (output_dir : FilePath)
      → Writes L.saved
          (Any L.saved)
          (λ ps w. ps ≡ pngs output_dir)
          (shots base_url output_dir)
          (capture B base_url output_dir)
  unfolding capture
  capture-Writes base_url output_dir =
      let Post = λ (ps : List FilePath) (w : W). ps ≡ pngs output_dir in
      let files = shots base_url output_dir in
      skip-Writes L.saved Post files B.import_playwright _ L.imported λ u.
        skip-Writes L.saved Post files (B.mkdir output_dir) _ (L.made output_dir) λ v.
          skip-Writes L.saved Post files B.sync_playwright _ L.started λ pw w pre.
            finally-Written pw (pngs output_dir) files (capture_pages B pw base_url output_dir w) w
              (pages-Writes pw base_url output_dir w pre)
