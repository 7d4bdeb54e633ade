-- ===== src/Web/Live/Tests.antt =====
-- The theorem about the live socket, for a peer that leaves.
use owon_xdm1041_server.Base.{
  ◌≡◌, ◌≢◌, ◌⊎◌, refl, ℕ, ◌-◌, ◌==◌, ◌&&◌, not, true, false, none, List, [], ◌∷◌, ok, err,
  cancelled, disconnected,
}
use owon_xdm1041_server.Web.Broadcast.{
  deliver, deliver_all, next_reading, publish, register, subscribe, has_number,
}
use owon_xdm1041_server.Web.Live.{Moment, others, goes_on, Socket, live_loop, live}
use owon_xdm1041_server.Web.Live.Viewer.{live_lem}
use owon_xdm1041_server.Web.Poller.{Poller, enter, ensure_running, is_running}

-- A socket that is sent one reading, and whose peer is gone when the next one comes.
abbrev idle : Poller ℕ
idle = record {
  broadcaster = record {
    object = λ n. record { queue = []; maxsize = 100; dropped = 0 };
    subscriptions = [];
    fresh = 0;
  };
  task = none;
  next_task = 0;
  subscribers = 0;
}

abbrev sampling : ℕ → Poller ℕ → Poller ℕ
sampling reading p = record p { broadcaster = publish reading p.broadcaster }

abbrev moments : List (Moment ℕ)
moments =
    goes_on true ∷ others (sampling 5) ∷ goes_on true ∷ others (sampling 6) ∷ goes_on false ∷ []

abbrev socket : Socket ℕ
socket = record { poller = idle; sent = [] }

live_lem_example :
    let n = (enter idle).0 in
    let e = live_loop n moments cancelled (record socket { poller = (enter idle).1 }) in
    let r = live moments cancelled socket in
    (has_number n r.1.poller.broadcaster.subscriptions ≡ false)
    × (r.1.poller.subscribers ≡ e.1.poller.subscribers - 1)
    × (is_running r.1.poller ≡ not (e.1.poller.subscribers - 1 == 0) && is_running e.1.poller)
    × (r.1.sent ≡ e.1.sent)
    × (r.0 ≢ err disconnected)
    × ((e.0 ≡ r.0) ⊎ ((e.0 ≡ err disconnected) × (r.0 ≡ ok tt)))
live_lem_example = live_lem moments cancelled socket

-- What that socket is sent, and that its end is no error.
live_test :
    ((live moments cancelled socket).0 ≡ ok tt) × ((live moments cancelled socket).1.sent ≡ 5 ∷ [])
unfolding live live_loop enter subscribe register ensure_running publish deliver_all deliver
    next_reading
live_test = (refl, refl)
