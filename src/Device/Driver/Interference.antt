-- ===== src/Device/Driver/Interference.antt =====
-- What happens between the queries of one driver method: each query takes the lock for itself, so
-- other clients and the front panel may change the meter in between.
use owon_xdm1041_server.Base.{
  ◌≡◌, ℕ, ◌+◌, none, some, arith, Action, ok, Text, strip, List, [], ◌∷◌,
}
use owon_xdm1041_server.Base.Floats.{Floats, IsPrintable}
use owon_xdm1041_server.Device.Commands
use owon_xdm1041_server.Device.Commands.{
  Function, Rate, function_value, unit_for, function_from_device,
}
use owon_xdm1041_server.Device.Manager
use owon_xdm1041_server.Device.Transport.{Transport}
use owon_xdm1041_server.Device.Mock.{
  MockTransport, mock_transport, transact, handle, measured, in_quotes, set_front_panel,
}
use owon_xdm1041_server.Device.Driver.{read_measurement, get_function}
use owon_xdm1041_server.Device.Driver.Exchange.{IsReady, handle-function, handle-measure}
use owon_xdm1041_server.Device.Driver.Snapshot.{read_function}

-- A transport's state, with what others will do before each of the next transactions.
pub record Shared (S : Type 0) : Type 0 where
  pub state : S
  pub others : List (S → S)

-- The first of the others' changes is made, and the rest are left.
abbrev disturb : {S : Type 0} → List (S → S) → S → Shared S
disturb [] s = record { state = s; others = [] }
disturb (f ∷ fs) s = record { state = f s; others = fs }

-- A step of the transport on the state that the others have left.
abbrev on_state : {S A : Type 0} → Action S A → Action (Shared S) A
on_state m s = let r = m s.state in (r.0, record s { state = r.1 })

-- The transport as one of several clients sees it.
abbrev pub shared : Transport → Transport
shared T = record {
  State = Shared T.State;
  is_open = λ s. T.is_open s.state;
  open_line = on_state T.open_line;
  close_line = on_state T.close_line;
  transact = λ c x t s. on_state (T.transact c x t) (disturb s.others s.state);
}

module _ (F : Floats) (default_timeout : ℕ) where
  query-shared :
      (c : Text) (f : MockTransport → MockTransport) (fs : List (MockTransport → MockTransport))
      (s s' : MockTransport) (r : Text)
      → IsReady s
      → IsReady (f s)
      → handle F (strip c) (f s) ≡ (ok (some r), s')
      → Manager.query
          (shared (mock_transport F))
          default_timeout
          c
          none
          (record { state = s; others = f ∷ fs })
        ≡ (ok r, record { state = s'; others = fs })
  unfolding Manager.query Manager.transact Manager.ensure_open Manager.attempt transact
  query-shared c f fs s s' r ready ready' e = ground (arith, e)

  -- Where the front panel is switched from `f` to `g` between the two queries of
  -- `read_measurement`, on an open mock with no failure due, the value is measured in `g`, and it
  -- is returned with the function `f` and the unit of `f`. It relies on `float(repr(x))` being `x`.
  pub read_measurement-front_panel :
      IsPrintable F
      → (s : MockTransport) (g : Function) → IsReady s
      → read_measurement F
          (shared (mock_transport F))
          default_timeout
          (record { state = s; others = (λ u. u) ∷ set_front_panel (some g) none none ∷ [] })
        ≡ (
          ok (record {
            value = measured F g (s.tick + 1);
            function = s.function;
            unit = unit_for s.function;
          }),
          record { state = record s { function = g; tick = s.tick + 1 }; others = [] },
        )
  unfolding read_measurement get_function set_front_panel
  read_measurement-front_panel P s g ready = ground (
    arith,
    query-shared Commands.function (λ u. u) (set_front_panel (some g) none none ∷ []) s s
        (in_quotes (function_value s.function)) ready ready (handle-function F s),
    read_function s.function,
    query-shared Commands.measure (set_front_panel (some g) none none) [] s
        (record s { function = g; tick = s.tick + 1 }) (F.repr (measured F g (s.tick + 1))) ready
        (record { open_now = ready.open_now; sound = ready.sound })
        (handle-measure F (record s { function = g })),
    P.of_text-repr (measured F g (s.tick + 1)),
  )
