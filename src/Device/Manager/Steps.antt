-- ===== src/Device/Manager/Steps.antt =====
-- src/owon_xdm1041_server/device/manager.py: what a method does under the lock, from one wait to
-- the next. A task that waits for the transport stands at a point.
pub mod Whole
use owon_xdm1041_server.Base.{
  ℕ, zero, suc, Bool, true, false, Option, none, some, Result, ok, err, Error, transport_error,
  device_error, Action, pure, ◌>>=◌, ◌>>◌, if◌then◌else◌, Text,
}
use owon_xdm1041_server.Device.Commands
use owon_xdm1041_server.Device.Manager.{timeout_or_default, transact, start, stop}
use owon_xdm1041_server.Device.Transport.{Transport}

-- What a task holds the lock for: `_transact` with its arguments, `start` or `stop`.
pub data Job : Type 0 where
  transaction : Text → Bool → Option ℕ → Job
  starting stopping : Job

-- Before the test of `is_open`; in `open`; in the `transact` of SYST:LOC; in that of the command;
-- in `close`; and at the end of the method, with what it returns or raises.
pub data Point : Type 0 where
  checking opening greeting sending closing : Point
  done : Result (Option Text) → Point

abbrev pub first_point : Job → Point
first_point (transaction command expect_response timeout) = checking
first_point starting = opening
first_point stopping = closing

-- Where a failed wait leads: `_reconnect` and `_transact` close the line first, `start` does not.
abbrev pub failed : Job → Error → Point
failed (transaction command expect_response timeout) transport_error = closing
failed job e = done (err e)

-- Where a wait leads that was to lead to `next`.
abbrev pub after : {A : Type 0} → Job → Point → Result A → Point
after job next (ok a) = next
after job next (err e) = failed job e

-- After `open` and SYST:LOC: the command, or the end of `start`.
abbrev pub greeted : Job → Point
greeted (transaction command expect_response timeout) = sending
greeted job = done (ok none)

abbrev pub sent : Job → Result (Option Text) → Point
sent job (ok answer) = done (ok answer)
sent job (err e) = failed job e

-- After `close`: `_safe_close` drops a `TransportError`, and `DeviceError` is raised; `stop` lets
-- all pass.
abbrev pub closed : {A : Type 0} → Job → Result A → Point
closed (transaction command expect_response timeout) (ok a) = done (err device_error)
closed (transaction command expect_response timeout) (err transport_error) = done (err device_error)
closed job (ok a) = done (ok none)
closed job (err e) = done (err e)

module _ (T : Transport) (default_timeout : ℕ) where
  abbrev pub send : Job → Action T.State (Option Text)
  send (transaction command expect_response timeout) =
      T.transact command expect_response (timeout_or_default T default_timeout timeout)
  send job = pure none

  -- From one point to the next, with the wait between them.
  unfoldable pub step : Job → Point → T.State → Point × T.State
  step job checking s = (if T.is_open s then sending else opening, s)
  step job opening s = let r = T.open_line s in (after job greeting r.0, r.1)
  step job greeting s =
      let r = T.transact Commands.local false default_timeout s in
      (after job (greeted job) r.0, r.1)
  step job sending s = let r = send job s in (sent job r.0, r.1)
  step job closing s = let r = T.close_line s in (closed job r.0, r.1)
  step job (done r) s = (done r, s)

  unfoldable pub run : Job → ℕ → Point × T.State → Point × T.State
  run job zero at = at
  run job (suc n) at = run job n (step job at.0 at.1)

  -- The whole method, as the other modules have it.
  unfoldable pub perform : Job → Action T.State (Option Text)
  perform (transaction command expect_response timeout) =
      transact T default_timeout command expect_response timeout
  perform starting = do start T default_timeout; pure none
  perform stopping = do stop T default_timeout; pure none
