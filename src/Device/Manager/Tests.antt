-- ===== src/Device/Manager/Tests.antt =====
-- The theorems about the manager, over the mock.
use owon_xdm1041_server.Base.{
  ◌≡◌, ◌≢◌, refl, ℕ, Bool, true, false, Option, none, some, ok, err, cancelled, transport_error,
  assertion_error, Text, codes, [], ◌∷◌,
}
use owon_xdm1041_server.Base.Symbolic.{symbolic}
use owon_xdm1041_server.Device.Commands
use owon_xdm1041_server.Device.Mock
use owon_xdm1041_server.Device.Mock.{MockTransport, new_mock, mock_transport}
use owon_xdm1041_server.Device.Mock.Lawful.{mock_transport-IsTransport}
use owon_xdm1041_server.Device.Transport.{Transport}
use owon_xdm1041_server.Device.Manager.{
  transact, ensure_open, safe_close, attempt, start, query, write, timeout_or_default,
}
use owon_xdm1041_server.Device.Manager.Failures.{
  transact-device_error, query_errors, start_fails_open,
}
use owon_xdm1041_server.Device.Manager.Greeting.{
  Logged, logged, IsGreeted, here, next, queried, wrote, Reach-IsGreeted,
}
use owon_xdm1041_server.Device.Manager.Steps.{
  transaction, stopping, checking, closing, done, step, run, perform,
}
use owon_xdm1041_server.Device.Manager.Steps.Whole.{run-perform}
use owon_xdm1041_server.Device.Manager.Tasks
use owon_xdm1041_server.Device.Manager.Tasks.{
  Stage, outside, waiting, inside, update, Shared, quiet, calls, acquires, goes_on, releases, Reach,
}
use owon_xdm1041_server.Device.Manager.Tasks.Cancelled.{cancel_before_greeting}
use owon_xdm1041_server.Device.Manager.Tasks.Progress.{Completes, waiting-Completes}
use owon_xdm1041_server.Device.Manager.Tasks.Serial.{IsSerial, Reach-IsSerial}

abbrev meter : Transport
meter = mock_transport symbolic

-- An open meter that fails in its next transaction.
abbrev failing : MockTransport
failing = record new_mock { is_open = true; fail_next = some (codes "unplugged") }

abbrev closed_log : Logged MockTransport
closed_log = record { state = new_mock; log = [] }

after_query : Logged MockTransport
after_query = (query (logged meter) 2000 Commands.measure none closed_log).1

Reach-IsGreeted_example :
    IsGreeted meter (write (logged meter) 2000 (codes "CONF:RES") none after_query).1
unfolding after_query
Reach-IsGreeted_example =
    Reach-IsGreeted meter (mock_transport-IsTransport symbolic) 2000 new_mock
      (write (logged meter) 2000 (codes "CONF:RES") none after_query).1 refl
      (next (next here (queried Commands.measure none)) (wrote (codes "CONF:RES") none))

query_errors_example :
    ((query meter 2000 Commands.measure none failing).0 ≢ err transport_error)
    × ((query meter 2000 Commands.measure none failing).0 ≢ err assertion_error)
    × ((write meter 2000 Commands.measure none failing).0 ≢ err transport_error)
query_errors_example =
    query_errors meter (mock_transport-IsTransport symbolic) 2000 Commands.measure none failing

transact-device_error_example :
    (transact meter 2000 Commands.measure true none failing).1.is_open ≡ false
unfolding transact ensure_open attempt safe_close Mock.transact
transact-device_error_example =
    transact-device_error meter (mock_transport-IsTransport symbolic) 2000 Commands.measure true
      none failing refl

start_fails_open_example :
    let closed : MockTransport = record failing { is_open = false } in
    let s' = (start meter 2000 closed).1 in
    ((start meter 2000 closed).0 ≡ err transport_error)
    × (s'.is_open ≡ true)
    × (transact meter 2000 Commands.measure true none s'
        ≡ attempt meter 2000 Commands.measure true 2000 s')
unfolding Mock.transact
start_fails_open_example =
    start_fails_open meter 2000 (record failing { is_open = false }) Commands.measure true none refl
      refl refl

-- Two tasks: one stops the manager while the other waits for the lock.
abbrev both_call : ℕ → Stage
both_call =
    update 1 (waiting (transaction Commands.measure true none))
      (update 0 (waiting stopping) (λ i. outside))

abbrev stopped_first : Shared MockTransport
stopped_first = record {
  device = record failing { is_open = false };
  holder = none;
  tasks =
      update 0 outside (
        update 0 (inside stopping (done (ok none))) (update 0 (inside stopping closing) both_call));
  ended = record { job = stopping; result = ok none } ∷ [];
  left_running = false;
}

stopped_first-Reach : Reach meter 2000 (quiet failing) stopped_first
unfolding step
stopped_first-Reach =
    Tasks.next
      (Tasks.next
        (Tasks.next
          (Tasks.next (Tasks.next Tasks.here (calls 0 stopping refl))
            (calls 1 (transaction Commands.measure true none) refl))
          (acquires 0 stopping refl refl))
        (goes_on 0 stopping closing refl))
      (releases 0 stopping (ok none) refl)

Reach-IsSerial_example : IsSerial meter 2000 failing stopped_first
Reach-IsSerial_example = Reach-IsSerial meter 2000 failing stopped_first stopped_first-Reach

waiting-Completes_example :
    Completes meter 2000 stopped_first 1 (transaction Commands.measure true none)
waiting-Completes_example =
    waiting-Completes meter 2000 failing stopped_first 1 (transaction Commands.measure true none)
      stopped_first-Reach refl

run-perform_example :
    run meter 2000 (transaction Commands.measure true none) 5 (checking, failing) ≡ (
      done (perform meter 2000 (transaction Commands.measure true none) failing).0,
      (perform meter 2000 (transaction Commands.measure true none) failing).1,
    )
run-perform_example = run-perform meter 2000 (transaction Commands.measure true none) failing

cancel_before_greeting_example :
    (u : Shared MockTransport) × Reach meter 2000 (quiet new_mock) u
    × (u.ended
        ≡ record { job = transaction Commands.measure true none; result = err cancelled } ∷ [])
    × (u.holder ≡ none)
    × (u.device.is_open ≡ true)
    × ((c' : Text) (x' : Bool) (t' : Option ℕ)
        → transact meter 2000 c' x' t' u.device
          ≡ attempt meter 2000 c' x' (timeout_or_default meter 2000 t') u.device)
cancel_before_greeting_example =
    cancel_before_greeting meter 2000 3 Commands.measure true none new_mock refl refl refl
