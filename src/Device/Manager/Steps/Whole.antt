-- ===== src/Device/Manager/Steps/Whole.antt =====
-- The points of a method, gone through alone, make the method.
use owon_xdm1041_server.Base.{
  ◌≡◌, refl, sym, ap, ◌∙◌, ℕ, zero, suc, Bool, true, false, not, Option, Result, ok, err, Error,
  transport_error, device_error, Action, pure, raise, resume, recover, ◌>>◌, if◌then◌else◌, Text,
  arith,
}
use owon_xdm1041_server.Device.Commands
use owon_xdm1041_server.Device.Manager.{
  on_transport_error, connect, safe_close, reconnect, attempt, timeout_or_default, ensure_open,
  transact, start, stop,
}
use owon_xdm1041_server.Device.Manager.Steps.{
  Job, transaction, starting, stopping, Point, checking, opening, greeting, sending, done,
  first_point, failed, after, sent, closed, step, run, perform,
}
use owon_xdm1041_server.Device.Transport.{Transport}

module _ (T : Transport) (default_timeout : ℕ) where
  pub run-done :
      (job : Job) (n : ℕ) (r : Result (Option Text)) (s : T.State)
      → run T default_timeout job n (done r, s) ≡ (done r, s)
  unfolding run step
  run-done job zero r s = refl
  run-done job (suc n) r s = run-done job n r s

  pub run-step :
      (job : Job) (n : ℕ) (at : Point × T.State)
      → run T default_timeout job n (step T default_timeout job at.0 at.1)
        ≡ step T default_timeout job
            (run T default_timeout job n at).0
            (run T default_timeout job n at).1
  unfolding run
  run-step job zero at = refl
  run-step job (suc n) at = run-step job n (step T default_timeout job at.0 at.1)

  pub run_add :
      (job : Job) (m n : ℕ) (at : Point × T.State)
      → run T default_timeout job m (run T default_timeout job n at)
        ≡ run T default_timeout job n (run T default_timeout job m at)
  unfolding run
  run_add job zero n at = refl
  run_add job (suc m) n at =
      ap (run T default_timeout job m) (sym (run-step job n at))
      ∙ run_add job m n (step T default_timeout job at.0 at.1)

  -- The end of a transaction that failed on the line, by what `close` does.
  run-closed :
      (c : Text) (x : Bool) (t : Option ℕ) (n : ℕ) (r : Result (Unit {0})) (s : T.State)
      → let e = recover (on_transport_error (pure tt)) r s in
        let f = resume (λ _. raise {A = Option Text} device_error) e.0 e.1 in
        run T default_timeout (transaction c x t) n (closed (transaction c x t) r, s)
        ≡ (done f.0, f.1)
  run-closed c x t n (ok a) s = run-done (transaction c x t) n (err device_error) s
  run-closed c x t n (err transport_error) s = run-done (transaction c x t) n (err device_error) s
  run-closed c x t n (err e) s = run-done (transaction c x t) n (err e) s

  -- The end of a transaction, by what the `transact` of its command does.
  run-sent :
      (c : Text) (x : Bool) (t : Option ℕ) (n : ℕ) (r : Result (Option Text)) (s : T.State)
      → let e =
          recover (on_transport_error (do safe_close T default_timeout; raise device_error)) r s in
        run T default_timeout (transaction c x t) (suc n) (sent (transaction c x t) r, s)
        ≡ (done e.0, e.1)
  unfolding run step safe_close
  run-sent c x t n (ok a) s = run-done (transaction c x t) n (ok a) s
  run-sent c x t n (err transport_error) s =
      run-closed c x t n (T.close_line s).0 (T.close_line s).1
  run-sent c x t n (err e) s = run-done (transaction c x t) n (err e) s

  run-sending :
      (c : Text) (x : Bool) (t : Option ℕ) (n : ℕ) (s : T.State)
      → let r = attempt T default_timeout c x (timeout_or_default T default_timeout t) s in
        run T default_timeout (transaction c x t) (suc (suc n)) (sending, s) ≡ (done r.0, r.1)
  unfolding run step attempt
  run-sending c x t n s =
      let r = T.transact c x (timeout_or_default T default_timeout t) s in run-sent c x t n r.0 r.1

  abbrev close_and_raise : {A : Type 0} → Error → Action T.State A
  close_and_raise = on_transport_error (do safe_close T default_timeout; raise device_error)

  -- The end of a transaction in which `_connect` failed: `_reconnect` raises, and nothing follows.
  run-failed_closed :
      {A : Type 0} (c : Text) (x : Bool) (t : Option ℕ) (n : ℕ)
      (k : A → Action T.State (Option Text)) (r : Result (Unit {0})) (s : T.State)
      → let e = recover (on_transport_error (pure tt)) r s in
        let f = resume (λ _. raise {A = A} device_error) e.0 e.1 in
        let g = resume k f.0 f.1 in
        run T default_timeout (transaction c x t) n (closed (transaction c x t) r, s)
        ≡ (done g.0, g.1)
  run-failed_closed c x t n k (ok a) s = run-done (transaction c x t) n (err device_error) s
  run-failed_closed c x t n k (err transport_error) s =
      run-done (transaction c x t) n (err device_error) s
  run-failed_closed c x t n k (err e) s = run-done (transaction c x t) n (err e) s

  run-failed :
      {A : Type 0} (c : Text) (x : Bool) (t : Option ℕ) (n : ℕ)
      (k : A → Action T.State (Option Text)) (e : Error) (s : T.State)
      → let f = close_and_raise {A = A} e s in
        let g = resume k f.0 f.1 in
        run T default_timeout (transaction c x t) (suc n) (failed (transaction c x t) e, s)
        ≡ (done g.0, g.1)
  unfolding run step safe_close
  run-failed c x t n k transport_error s =
      run-failed_closed c x t n k (T.close_line s).0 (T.close_line s).1
  run-failed c x t n k e s = run-done (transaction c x t) n (err e) s

  -- The rest of the transaction, by what the `transact` of SYST:LOC does.
  run-greeted :
      (c : Text) (x : Bool) (t : Option ℕ) (r : Result (Option Text)) (s : T.State)
      → let k = λ (u : Unit {0}).
        attempt T default_timeout c x (timeout_or_default T default_timeout t) in
        let e = resume (λ _. pure tt) r s in
        let f = recover close_and_raise e.0 e.1 in
        let g = resume k f.0 f.1 in
        run T default_timeout (transaction c x t) 2 (after (transaction c x t) sending r, s)
        ≡ (done g.0, g.1)
  run-greeted c x t (ok a) s = run-sending c x t 0 s
  run-greeted c x t (err e) s =
      run-failed c x t 1
        (λ u. attempt T default_timeout c x (timeout_or_default T default_timeout t)) e s

  -- The rest of the transaction, by what `open` does.
  run-opened :
      (c : Text) (x : Bool) (t : Option ℕ) (r : Result (Unit {0})) (s : T.State)
      → let k = λ (u : Unit {0}).
        attempt T default_timeout c x (timeout_or_default T default_timeout t) in
        let e = resume (λ _. do T.transact Commands.local false default_timeout; pure tt) r s in
        let f = recover close_and_raise e.0 e.1 in
        let g = resume k f.0 f.1 in
        run T default_timeout (transaction c x t) 3 (after (transaction c x t) greeting r, s)
        ≡ (done g.0, g.1)
  unfolding run step
  run-opened c x t (ok a) s =
      let r = T.transact Commands.local false default_timeout s in run-greeted c x t r.0 r.1
  run-opened c x t (err e) s =
      run-failed c x t 2
        (λ u. attempt T default_timeout c x (timeout_or_default T default_timeout t)) e s

  run-checked :
      (c : Text) (x : Bool) (t : Option ℕ) (open_now : Bool) (s : T.State)
      → let k = λ (u : Unit {0}).
        attempt T default_timeout c x (timeout_or_default T default_timeout t) in
        let e = if not open_now then reconnect T default_timeout s else pure tt s in
        let r = resume k e.0 e.1 in
        run T default_timeout (transaction c x t) 4 (if open_now then sending else opening, s)
        ≡ (done r.0, r.1)
  run-checked c x t true s = run-sending c x t 2 s
  run-checked c x t false s =
      unfold run step reconnect connect in run-opened c x t (T.open_line s).0 (T.open_line s).1

  run-transaction :
      (c : Text) (x : Bool) (t : Option ℕ) (s : T.State)
      → let r = transact T default_timeout c x t s in
        run T default_timeout (transaction c x t) 5 (checking, s) ≡ (done r.0, r.1)
  run-transaction c x t s =
      unfold run step transact ensure_open in run-checked c x t (T.is_open s) s

  -- A method run alone ends, after four waits at most, with what the method returns or raises as a
  -- whole, and with the transport in the same state.
  pub run-perform :
      (job : Job) (s : T.State)
      → run T default_timeout job 5 (first_point job, s)
        ≡ (done (perform T default_timeout job s).0, (perform T default_timeout job s).1)
  unfolding perform
  run-perform (transaction c x t) s = run-transaction c x t s
  run-perform starting s = unfold run step start connect in ground arith
  run-perform stopping s = unfold run step stop in ground arith
