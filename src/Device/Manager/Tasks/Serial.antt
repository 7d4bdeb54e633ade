-- ===== src/Device/Manager/Tasks/Serial.antt =====
-- src/owon_xdm1041_server/device/manager.py: the lock, and the methods one after the other that it
-- makes of interleaved tasks.
use owon_xdm1041_server.Base.{
  ◌≡◌, refl, sym, ap, ◌∙◌, ℕ, suc, Option, none, some, List, [], ◌∷◌, Result, err, cancelled, Bool,
  true, false, Text, arith,
}
use owon_xdm1041_server.Device.Manager.Steps.{Job, Point, done, first_point, step, run, perform}
use owon_xdm1041_server.Device.Manager.Steps.Whole.{run-done, run-step, run_add, run-perform}
use owon_xdm1041_server.Device.Manager.Tasks.{
  outside, waiting, inside, update, Finished, Shared, quiet, advanced, Step, calls, acquires,
  goes_on, releases, gives_up, cancels, abandons, disturbed, is_cancellable, cancel, Reach, here,
  next,
}
use owon_xdm1041_server.Device.Transport.{Transport}

module _ (T : Transport) (default_timeout : ℕ) where
  -- Where a method has come to its end, it is what the method does as a whole.
  run-ends :
      (job : Job) (n : ℕ) (s : T.State) (r : Result (Option Text)) (t : T.State)
      → run T default_timeout job n (first_point job, s) ≡ (done r, t)
      → perform T default_timeout job s ≡ (r, t)
  run-ends job n s r t e =
      let whole = perform T default_timeout job s in
      let both : ◌≡◌ {A = Point × T.State} (done r, t) (done whole.0, whole.1) =
        sym (run-done T default_timeout job 5 r t)
        ∙ ap (run T default_timeout job 5) (sym e)
        ∙ run_add T default_timeout job 5 n (first_point job, s)
        ∙ ap (run T default_timeout job n) (run-perform T default_timeout job s)
        ∙ run-done T default_timeout job n whole.0 whole.1 in
      cc

module _ (T : Transport) (default_timeout : ℕ) (start : T.State) where
  -- The methods of the list, run one after the other from the start, the first at the list's end,
  -- each one whole, or cut short where it was cancelled: each returns or raises what the list says,
  -- and together they leave this state.
  pub data IsSequence : List Finished → T.State → Type 0 where
    nothing_yet : IsSequence [] start
    one_more :
        {ended : List Finished} {s t : T.State} (job : Job) (r : Result (Option Text))
        → IsSequence ended s
        → perform T default_timeout job s ≡ (r, t)
        → IsSequence (record { job = job; result = r } ∷ ended) t
    cut_short :
        {ended : List Finished} {s t : T.State} (job : Job) (n : ℕ) (p : Point)
        → IsSequence ended s
        → run T default_timeout job n (first_point job, s) ≡ (p, t)
        → is_cancellable p ≡ true
        → IsSequence (record { job = job; result = err cancelled } ∷ ended) t

  -- A task has gone part of the way through its method since the methods that have ended.
  abbrev pub Underway : Shared T.State → ℕ → Type 0
  Underway s i =
      (job : Job) × (n : ℕ) × (p : Point) × (base : T.State) × IsSequence s.ended base
      × (s.tasks i ≡ inside job p)
      × (run T default_timeout job n (first_point job, base) ≡ (p, s.device))

  -- A task is inside a method.
  abbrev pub Inside : Shared T.State → ℕ → Type 0
  Inside s i = (job : Job) × (p : Point) × (s.tasks i ≡ inside job p)

  pub record IsSerial (s : Shared T.State) : Type 0 where
    pub free : s.left_running ≡ false → s.holder ≡ none → IsSequence s.ended s.device
    pub underway : (i : ℕ) → s.left_running ≡ false → s.holder ≡ some i → Underway s i
    pub held : (i : ℕ) → s.holder ≡ some i → Inside s i
    pub only : (i : ℕ) (job : Job) (p : Point) → s.tasks i ≡ inside job p → s.holder ≡ some i

  calls-IsSerial :
      (s : Shared T.State) (i : ℕ) (job : Job)
      → s.tasks i ≡ outside
      → IsSerial s
      → IsSerial (record s { tasks = update i (waiting job) s.tasks })
  calls-IsSerial s i job e h = record {
    free = h.free;
    underway = λ j l f.
        let (job', n, p, base, q, at, way) = h.underway j l f in
        (job', n, p, base, q, ground arith, way);
    held = λ j f. let (job', p, at) = h.held j f in (job', p, ground arith);
    only = λ j job' p g. ground (arith, h.only j job' p);
  }

  acquires-IsSerial :
      (s : Shared T.State) (i : ℕ) (job : Job)
      → s.tasks i ≡ waiting job
      → s.holder ≡ none
      → IsSerial s
      → IsSerial
          (record s { holder = some i; tasks = update i (inside job (first_point job)) s.tasks })
  unfolding run
  acquires-IsSerial s i job e f h = record {
    free = λ l g. cc;
    underway = λ j l g. (job, 0, first_point job, s.device, h.free l f, ground arith, refl);
    held = λ j g. (job, first_point job, ground arith);
    only = λ j job' p g. ground (arith, h.only j job' p);
  }

  run-on :
      (job : Job) (n : ℕ) (p : Point) (base d : T.State)
      → run T default_timeout job n (first_point job, base) ≡ (p, d)
      → run T default_timeout job (suc n) (first_point job, base) ≡ step T default_timeout job p d
  unfolding run
  run-on job n p base d way =
      run-step T default_timeout job n (first_point job, base)
      ∙ ap (λ (at : Point × T.State). step T default_timeout job at.0 at.1) way

  goes_on-IsSerial :
      (s : Shared T.State) (i : ℕ) (job : Job) (p : Point)
      → s.tasks i ≡ inside job p
      → IsSerial s
      → IsSerial (advanced T default_timeout i job (step T default_timeout job p s.device) s)
  goes_on-IsSerial s i job p e h =
      let mine = h.only i job p e in
      record {
        free = λ l g. cc;
        underway = λ j l g.
            let (job', n, p', base, q, at, way) = h.underway j l g in
            let same : i ≡ j = cc in
            let stage : inside job p ≡ inside job' p' = cc in
            let on = run-on job' n p' base s.device way in
            (
              job',
              suc n,
              (step T default_timeout job' p' s.device).0,
              base,
              q,
              ground arith,
              ground arith,
            );
        held = λ j g.
            let same : i ≡ j = cc in (job, (step T default_timeout job p s.device).0, ground arith);
        only = λ j job' p' g. ground (arith, h.only j job' p');
      }

  disturbed-IsSerial :
      (s : Shared T.State) (i : ℕ) (job : Job) (p p' : Point) (d : T.State)
      → s.left_running ≡ true
      → s.tasks i ≡ inside job p
      → IsSerial s
      → IsSerial (advanced T default_timeout i job (p', d) s)
  disturbed-IsSerial s i job p p' d left e h =
      let mine = h.only i job p e in
      record {
        free = λ l g. cc;
        underway = λ j l g. absurd cc;
        held = λ j g. let same : i ≡ j = cc in (job, p', ground arith);
        only = λ j job' q g. ground (arith, h.only j job' q);
      }

  -- A task leaves its method and gives the lock back.
  leaves-IsSerial :
      (s : Shared T.State) (i : ℕ) (job : Job) (p : Point) (r : Result (Option Text)) (left : Bool)
      → s.tasks i ≡ inside job p
      → IsSerial s
      → (left ≡ false → IsSequence (record { job = job; result = r } ∷ s.ended) s.device)
      → IsSerial (record s {
        holder = none;
        tasks = update i outside s.tasks;
        ended = record { job = job; result = r } ∷ s.ended;
        left_running = left;
      })
  leaves-IsSerial s i job p r left e h q =
      let mine = h.only i job p e in
      record {
        free = λ l g. q l;
        underway = λ j l g. cc;
        held = λ j g. cc;
        only = λ j job' p' g. ground (arith, h.only j job' p');
      }

  releases-IsSerial :
      (s : Shared T.State) (i : ℕ) (job : Job) (r : Result (Option Text))
      → s.tasks i ≡ inside job (done r)
      → IsSerial s
      → IsSerial (record s {
        holder = none;
        tasks = update i outside s.tasks;
        ended = record { job = job; result = r } ∷ s.ended;
      })
  releases-IsSerial s i job r e h = leaves-IsSerial s i job (done r) r s.left_running e h λ l.
      let mine = h.only i job (done r) e in
      let (job', n, p, base, q, at, way) = h.underway i l mine in
      let stage : inside job (done r) ≡ inside job' p = sym e ∙ at in
      let ends : run T default_timeout job n (first_point job, base) ≡ (done r, s.device) = cc in
      one_more job r q (run-ends T default_timeout job n base r s.device ends)

  gives_up-IsSerial :
      (s : Shared T.State) (i : ℕ) (job : Job)
      → s.tasks i ≡ waiting job
      → IsSerial s
      → IsSerial (record s { tasks = update i outside s.tasks })
  gives_up-IsSerial s i job e h = record {
    free = h.free;
    underway = λ j l f.
        let (job', n, p, base, q, at, way) = h.underway j l f in
        (job', n, p, base, q, ground arith, way);
    held = λ j f. let (job', p, at) = h.held j f in (job', p, ground arith);
    only = λ j job' p g. ground (arith, h.only j job' p);
  }

  cancels-IsSerial :
      (s : Shared T.State) (i : ℕ) (job : Job) (p : Point)
      → s.tasks i ≡ inside job p
      → is_cancellable p ≡ true
      → IsSerial s
      → IsSerial (cancel i job s)
  cancels-IsSerial s i job p e w h =
      leaves-IsSerial s i job p (err cancelled) s.left_running e h λ l.
        let mine = h.only i job p e in
        let (job', n, p', base, q, at, way) = h.underway i l mine in
        let stage : inside job p ≡ inside job' p' = sym e ∙ at in
        let part : run T default_timeout job n (first_point job, base) ≡ (p, s.device) = cc in
        cut_short job n p q part w

  Step-IsSerial : {s t : Shared T.State} → Step T default_timeout s t → IsSerial s → IsSerial t
  Step-IsSerial {s} (calls i job e) h = calls-IsSerial s i job e h
  Step-IsSerial {s} (acquires i job e f) h = acquires-IsSerial s i job e f h
  Step-IsSerial {s} (goes_on i job p e) h = goes_on-IsSerial s i job p e h
  Step-IsSerial {s} (releases i job r e) h = releases-IsSerial s i job r e h
  Step-IsSerial {s} (gives_up i job e) h = gives_up-IsSerial s i job e h
  Step-IsSerial {s} (cancels i job p e w) h = cancels-IsSerial s i job p e w h
  Step-IsSerial {s} (abandons i job p e w) h =
      leaves-IsSerial s i job p (err cancelled) true e h λ l. absurd cc
  Step-IsSerial {s} (disturbed i job p d d' l e) h =
      disturbed-IsSerial s i job p (step T default_timeout job p d).0 d' l e h

  -- However the tasks that share a manager are interleaved, and whichever of them are cancelled: at
  -- any time at most one is inside a method, the one that holds the lock. As long as no task was
  -- cancelled in a wait whose thread had begun, or in `close`: whenever the lock is free, what each
  -- method that has ended returned or raised, and the state of the transport, are those of the
  -- methods run one after the other, in the order in which they ended, each one whole, or, where it
  -- was cancelled, up to one of its waits or after the last one.
  pub Reach-IsSerial : (s : Shared T.State) → Reach T default_timeout (quiet start) s → IsSerial s
  Reach-IsSerial s here = record {
    free = λ l e. nothing_yet;
    underway = λ i l e. cc;
    held = λ i e. cc;
    only = λ i job p e. cc;
  }
  Reach-IsSerial s (next {t} r st) = Step-IsSerial st (Reach-IsSerial t r)
