-- ===== src/Device/Manager/Tasks/Progress.antt =====
-- No task that shares a manager can be shut out for good.
use owon_xdm1041_server.Base.{
  ◌≡◌, Bool, true, false, ◌≢◌, ◌⊎◌, inl, inr, refl, ◌∙◌, ℕ, zero, suc, ◌≤◌, ◌-◌, Option, none, some,
  List, ◌∷◌, Result, Error, ok, err, Text, arith, transport_error,
}
use owon_xdm1041_server.Device.Commands
use owon_xdm1041_server.Device.Manager.Steps.{
  Job, transaction, starting, stopping, Point, checking, opening, greeting, sending, closing, done,
  first_point, failed, after, greeted, sent, closed, send, step,
}
use owon_xdm1041_server.Device.Manager.Tasks.{
  outside, waiting, inside, update, Finished, Shared, quiet, advanced, Step, acquires, gives_up,
  cancels, abandons, disturbed, goes_on, releases, Reach,
}
use owon_xdm1041_server.Device.Manager.Tasks.Serial.{Reach-IsSerial}
use owon_xdm1041_server.Device.Transport.{Transport}

-- How many waits can lie between a point and the end of the method, at most.
abbrev rank : Point → ℕ
rank checking = 5
rank opening = 4
rank greeting = 3
rank sending = 2
rank closing = 1
rank (done r) = 0

rank-failed : (job : Job) (e : Error) → rank (failed job e) ≤ 1
rank-failed (transaction c x t) transport_error = omega arith
rank-failed job e = omega arith

rank-after :
    {A : Type 0} (job : Job) (p : Point) (n : ℕ) (r : Result A)
    → rank p ≤ n
    → 1 ≤ n
    → rank (after job p r) ≤ n
rank-after job p n (ok a) h one = h
rank-after job p n (err e) h one = omega (arith, rank-failed job e)

rank-greeted : (job : Job) → rank (greeted job) ≤ 2
rank-greeted (transaction c x t) = omega arith
rank-greeted starting = omega arith
rank-greeted stopping = omega arith

rank-sent : (job : Job) (r : Result (Option Text)) → rank (sent job r) ≤ 1
rank-sent job (ok a) = omega arith
rank-sent job (err e) = rank-failed job e

rank-closed : {A : Type 0} (job : Job) (r : Result A) → rank (closed job r) ≤ 0
rank-closed (transaction c x t) (ok a) = omega arith
rank-closed (transaction c x t) (err transport_error) = omega arith
rank-closed job (ok a) = omega arith
rank-closed job (err e) = omega arith

holder_cases : (holder : Option ℕ) → (holder ≡ none) ⊎ ((i : ℕ) × (holder ≡ some i))
holder_cases none = inl refl
holder_cases (some i) = inr (i, refl)

module _ (T : Transport) (default_timeout : ℕ) where
  -- Each wait brings a method nearer to its end.
  rank-step :
      (job : Job) (p : Point) (s : T.State) → rank (step T default_timeout job p s).0 ≤ rank p - 1
  unfolding step
  rank-step job checking s = ground arith
  rank-step job opening s = rank-after job greeting 3 (T.open_line s).0 (omega arith) (omega arith)
  rank-step job greeting s =
      rank-after job (greeted job) 2 (T.transact Commands.local false default_timeout s).0
        (rank-greeted job) (omega arith)
  rank-step job sending s = rank-sent job (send T default_timeout job s).0
  rank-step job closing s = rank-closed job (T.close_line s).0
  rank-step job (done r) s = omega arith

  -- A cancellation, or a step that a thread it has left behind disturbs.
  abbrev pub is_cancellation : {s t : Shared T.State} → Step T default_timeout s t → Bool
  is_cancellation (gives_up i job e) = true
  is_cancellation (cancels i job p e c) = true
  is_cancellation (abandons i job p e c) = true
  is_cancellation (disturbed i job p d d' l e) = true
  is_cancellation st = false

  -- Steps none of which is a cancellation or disturbed by one.
  pub data Onward (s : Shared T.State) : Shared T.State → Type 0 where
    stays : Onward s s
    then :
        {t u : Shared T.State}
        → Onward s t
        → (st : Step T default_timeout t u) → is_cancellation st ≡ false
        → Onward s u

  first :
      {s t u : Shared T.State} (st : Step T default_timeout s t)
      → is_cancellation st ≡ false
      → Onward t u
      → Onward s u
  first st e stays = then stays st e
  first st e (then r st' e') = then (first st e r) st' e'

  trans : {s t u : Shared T.State} → Onward s t → Onward t u → Onward s u
  trans r stays = r
  trans r (then r' st e) = then (trans r r') st e

  -- From this state, without a cancellation, task `i` leaves its method and the lock, and no other
  -- task is moved.
  abbrev pub Ends : Shared T.State → ℕ → Job → Type 0
  Ends s i job =
      (t : Shared T.State) × Onward s t
      × (t.holder ≡ none)
      × (t.tasks i ≡ outside)
      × ((j : ℕ) → i ≢ j → t.tasks j ≡ s.tasks j)
      × (r : Result (Option Text)) × (earlier : List Finished) × (t.ended
          ≡ record { job = job; result = r } ∷ earlier)

  done-Ends :
      (p : Point) (s : Shared T.State) (i : ℕ) (job : Job)
      → s.tasks i ≡ inside job p
      → rank p ≤ 0
      → Ends s i job
  done-Ends (done r) s i job e h = (
    _,
    then stays (releases i job r e) refl,
    refl,
    ground arith,
    λ j apart. ground arith,
    r,
    s.ended,
    refl,
  )
  done-Ends _ s i job e h = absurd (omega arith)

  inside-Ends :
      (k : ℕ) (p : Point) (s : Shared T.State) (i : ℕ) (job : Job)
      → s.tasks i ≡ inside job p
      → rank p ≤ k
      → Ends s i job
  inside-Ends zero p s i job e h = done-Ends p s i job e h
  inside-Ends (suc k) p s i job e h =
      let at = step T default_timeout job p s.device in
      let (t, r, free, out, rest, last, earlier, ended) =
        inside-Ends k at.0 (advanced T default_timeout i job at s) i job (ground arith)
          (omega (arith, rank-step job p s.device)) in
      (
        t,
        first (goes_on i job p e) refl r,
        free,
        out,
        λ j apart. ground (arith, rest j apart),
        last,
        earlier,
        ended,
      )

  -- From this state, without a cancellation, task `j` can come to the end of the method that it
  -- waits to begin.
  abbrev pub Completes : Shared T.State → ℕ → Job → Type 0
  Completes s j job =
      (t : Shared T.State) × Onward s t
      × (t.holder ≡ none)
      × (t.tasks j ≡ outside)
      × (r : Result (Option Text)) × (earlier : List Finished) × (t.ended
          ≡ record { job = job; result = r } ∷ earlier)

  from_free :
      (s : Shared T.State) (j : ℕ) (job : Job)
      → s.tasks j ≡ waiting job
      → s.holder ≡ none
      → Completes s j job
  from_free s j job e free =
      let (t, r, free', out, rest, last, earlier, ended) =
        inside-Ends (rank (first_point job)) (first_point job)
          (record s { holder = some j; tasks = update j (inside job (first_point job)) s.tasks }) j
          job (ground arith) (omega arith) in
      (t, first (acquires j job e free) refl r, free', out, last, earlier, ended)

  from_held :
      (s : Shared T.State) (i j : ℕ) (job job' : Job) (p : Point)
      → s.tasks j ≡ waiting job
      → s.tasks i ≡ inside job' p
      → Completes s j job
  from_held s i j job job' p e at =
      let (t, r, free, out, rest, last, earlier, ended) =
        inside-Ends (rank p) p s i job' at (omega arith) in
      let (u, q, free', out', last', earlier', ended') =
        from_free t j job (rest j (λ same. cc) ∙ e) free in
      (u, trans r q, free', out', last', earlier', ended')

  module _ (start : T.State) where
    -- However the tasks that share a manager have been interleaved, and whichever were cancelled:
    -- from there, steps without a cancellation lead a task that waits for the lock through its
    -- whole method, to a state in which that method is the latest to have ended, the task is
    -- elsewhere and the lock is free.
    pub waiting-Completes :
        (s : Shared T.State) (j : ℕ) (job : Job)
        → Reach T default_timeout (quiet start) s
        → s.tasks j ≡ waiting job
        → Completes s j job
    waiting-Completes s j job reached e =
        let h = Reach-IsSerial T default_timeout start s reached in
        elim (holder_cases s.holder) [
          | inl free ↦ from_free s j job e free
          | inr (i, held) ↦ let (job', p, at) = h.held i held in from_held s i j job job' p e at
        ]
