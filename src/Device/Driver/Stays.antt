-- ===== src/Device/Driver/Stays.antt =====
-- What the operations of the driver and the manager keep, where the transport's keep it.
use owon_xdm1041_server.Base.{
  Bool, true, false, not, Option, none, some, Action, Error, Result, ok, err, transport_error,
  device_error, pure, raise, resume, recover, try_except, if◌then◌else◌, ◌>>=◌, ◌>>◌, Text, ℕ,
}
use owon_xdm1041_server.Base.Floats.{Floats}
use owon_xdm1041_server.Device.Commands
use owon_xdm1041_server.Device.Commands.{Function, no_range_query}
use owon_xdm1041_server.Device.Driver.{
  on_device_error, float_result, identify, get_function, get_rate, get_auto_range, range_in,
  get_range, read_state, read_measurement, run_probe,
}
use owon_xdm1041_server.Device.Manager.{
  on_transport_error, assert_some, connect, safe_close, reconnect, attempt, ensure_open,
  timeout_or_default, transact, query,
}
use owon_xdm1041_server.Device.Transport.{Transport}

module _ {S : Type 0} (Inv : S → Type 0) where
  -- Whatever the action returns or raises, it leads on from a state with the property to another.
  unfoldable pub Stays : {A : Type 0} → Action S A → Type 0
  Stays m = (s : S) → Inv s → Inv (m s).1

  result-Stays : {A : Type 0} (r : Result A) → Stays (λ s. (r, s))
  unfolding Stays
  result-Stays r s h = h

  bind-Stays :
      {A B : Type 0} (m : Action S A) (f : A → Action S B)
      → Stays m
      → ((a : A) → Stays (f a))
      → Stays (m >>= f)
  unfolding Stays
  bind-Stays {A} m f h k s start = resumed (m s).0 (m s).1 (h s start)
    where
      resumed : (r : Result A) (t : S) → Inv t → Inv (resume f r t).1
      resumed (ok a) t i = k a t i
      resumed (err e) t i = i

  except-Stays :
      {A : Type 0} (m : Action S A) (f : Error → Action S A)
      → Stays m
      → ((e : Error) → Stays (f e))
      → Stays (try_except m f)
  unfolding Stays
  except-Stays {A} m f h k s start = recovered (m s).0 (m s).1 (h s start)
    where
      recovered : (r : Result A) (t : S) → Inv t → Inv (recover f r t).1
      recovered (ok a) t i = i
      recovered (err e) t i = k e t i

  on_transport_error-Stays :
      {A : Type 0} (m : Action S A) → Stays m → (e : Error) → Stays (on_transport_error m e)
  on_transport_error-Stays m h transport_error = h
  on_transport_error-Stays m h e = result-Stays (err e)

  on_device_error-Stays :
      {A : Type 0} (m : Action S A) → Stays m → (e : Error) → Stays (on_device_error m e)
  on_device_error-Stays m h device_error = h
  on_device_error-Stays m h e = result-Stays (err e)

module _ (T : Transport) (default_timeout : ℕ) (Inv : T.State → Type 0)
    (opens : Stays Inv T.open_line) (closes : Stays Inv T.close_line)
    (transacts : (c : Text) (x : Bool) (t : ℕ) → Stays Inv (T.transact c x t)) where
  pub connect-Stays : Stays Inv (connect T default_timeout)
  unfolding connect
  connect-Stays = bind-Stays Inv _ _ opens λ u.
      bind-Stays Inv _ _ (transacts Commands.local false default_timeout)
        λ r. result-Stays Inv (ok tt)

  closing-Stays :
      (A : Type 0) (e : Error)
      → Stays Inv
          (on_transport_error {A = A} (do safe_close T default_timeout; raise device_error) e)
  unfolding safe_close
  closing-Stays A = on_transport_error-Stays Inv _ (
      bind-Stays Inv _ _
        (except-Stays Inv T.close_line _ closes
          (on_transport_error-Stays Inv _ (result-Stays Inv (ok tt))))
        λ u. result-Stays Inv (err device_error))

  ensure_open-Stays : Stays Inv (ensure_open T default_timeout)
  unfolding ensure_open reconnect Stays
  ensure_open-Stays s h = checked (T.is_open s)
    where
      checked :
          (open_now : Bool)
          → Inv (if not open_now then reconnect T default_timeout s else pure tt s).1
      checked true = h
      checked false =
          except-Stays Inv (connect T default_timeout) _ connect-Stays (closing-Stays _) s h

  transact-Stays :
      (c : Text) (x : Bool) (t : Option ℕ) → Stays Inv (transact T default_timeout c x t)
  unfolding transact attempt
  transact-Stays c x t = bind-Stays Inv _ _ ensure_open-Stays λ u.
      except-Stays Inv _ _ (transacts c x (timeout_or_default T default_timeout t))
        (closing-Stays _)

  query-Stays : (c : Text) (t : Option ℕ) → Stays Inv (query T default_timeout c t)
  unfolding query
  query-Stays c t = bind-Stays Inv _ _ (transact-Stays c true t) asserted
    where
      asserted : (r : Option Text) → Stays Inv (assert_some r)
      asserted none = result-Stays Inv _
      asserted (some r) = result-Stays Inv (ok r)

  get_function-Stays : Stays Inv (get_function T default_timeout)
  unfolding get_function
  get_function-Stays =
      bind-Stays Inv _ _ (query-Stays Commands.function none) λ r. result-Stays Inv _

  range_in-Stays : (f : Function) → Stays Inv (range_in T default_timeout f)
  unfolding range_in
  range_in-Stays f = asked (no_range_query f)
    where
      asked :
          (silent : Bool)
          → Stays Inv (
              if silent
              then pure none
              else try_except
                  (do
                    raw ← query T default_timeout Commands.range_query none
                    pure (some (Commands.unquote raw)))
                  (on_device_error (pure none)))
      asked true = result-Stays Inv (ok none)
      asked false =
          except-Stays Inv _ _
            (bind-Stays Inv _ _ (query-Stays Commands.range_query none) λ r. result-Stays Inv _)
            (on_device_error-Stays Inv _ (result-Stays Inv (ok none)))

  read_state-Stays : Stays Inv (read_state T default_timeout)
  unfolding read_state get_rate get_auto_range get_range
  read_state-Stays = bind-Stays Inv _ _ get_function-Stays λ f.
      bind-Stays Inv _ _
        (bind-Stays Inv _ _ (query-Stays Commands.rate_query none) λ r. result-Stays Inv _)
        λ rate.
          bind-Stays Inv _ _
            (bind-Stays Inv _ _ (query-Stays Commands.auto_range_query none)
              λ r. result-Stays Inv _)
            λ auto_range. bind-Stays Inv _ _ (range_in-Stays f) λ range. result-Stays Inv _

  read_measurement-Stays : (F : Floats) → Stays Inv (read_measurement F T default_timeout)
  unfolding read_measurement
  read_measurement-Stays F = bind-Stays Inv _ _ get_function-Stays λ f.
      bind-Stays Inv _ _ (query-Stays Commands.measure none) λ r.
        bind-Stays Inv _ _ (result-Stays Inv (float_result (F.of_text r))) λ x. result-Stays Inv _

  -- Neither the queries of the probe nor a reconnection among them leads out of a property that the
  -- methods of the transport keep.
  pub run_probe-Stays : (F : Floats) → Stays Inv (run_probe F T default_timeout)
  unfolding run_probe identify
  run_probe-Stays F = bind-Stays Inv _ _ (query-Stays Commands.identify none) λ identity.
      bind-Stays Inv _ _ (read_measurement-Stays F)
        λ measurement. bind-Stays Inv _ _ read_state-Stays λ state. result-Stays Inv _
