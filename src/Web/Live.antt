-- ===== src/Web/Live.antt =====
-- src/owon_xdm1041_server/web/api.py: the web socket `live`, which serves one viewer's
-- subscription.
pub mod Viewer
mod Tests
use owon_xdm1041_server.Base.{
  ℕ, Bool, true, false, Option, none, some, List, [], ◌∷◌, ◌++◌, Action, Error, Result, ok, err,
  disconnected, pure, raise, resume, try_except, if◌then◌else◌,
}
use owon_xdm1041_server.Web.Broadcast.{Broadcaster, Subscription, next_reading, put_object}
use owon_xdm1041_server.Web.Poller.{Poller, enter, leave}

-- What happens to the handler: other tasks change the poller and its broadcaster; or it goes on
-- with its next reading, if one waits, and the flag says whether the peer is still there to take
-- it.
pub data Moment (A : Type 0) : Type 0 where
  others : (Poller A → Poller A) → Moment A
  goes_on : Bool → Moment A

-- The poller, and what was sent to the peer.
pub record Socket (A : Type 0) : Type 0 where
  pub poller : Poller A
  pub sent : List A

module _ {A : Type 0} where
  -- `await websocket.send_json(asdict(reading))`
  abbrev pub send : A → Bool → Action (Socket A) (Unit {0})
  send reading there s =
      if there then (ok tt, record s { sent = s.sent ++ (reading ∷ []) }) else (err disconnected, s)

  -- The queue of a subscription after `__anext__`.
  abbrev pub put_back : ℕ → Subscription A → Socket A → Socket A
  put_back n subscription s = record s {
    poller = record s.poller {
      broadcaster = record s.poller.broadcaster {
        object = put_object n subscription s.poller.broadcaster.object;
      };
    };
  }

  -- One round of the loop, by what waits in the queue.
  abbrev pub send_next : ℕ → Bool → Option (A × Subscription A) → Action (Socket A) (Unit {0})
  send_next n there none s = pure tt s
  send_next n there (some (reading, rest)) s = send reading there (put_back n rest s)

  -- The loop of the handler, up to the exception that ends it.
  unfoldable pub live_loop : ℕ → List (Moment A) → Error → Action (Socket A) (Unit {0})
  live_loop n [] last s = (err last, s)
  live_loop n (others f ∷ rest) last s = live_loop n rest last (record s { poller = f s.poller })
  live_loop n (goes_on there ∷ rest) last s =
      let r = send_next n there (next_reading (s.poller.broadcaster.object n)) s in
      resume (λ _. live_loop n rest last) r.0 r.1

  -- `except WebSocketDisconnect: pass`
  abbrev pub on_disconnect : Error → Action (Socket A) (Unit {0})
  on_disconnect disconnected = pure tt
  on_disconnect e = raise e

  -- The end of `poller.subscribe()`, however its block was left.
  abbrev pub left : ℕ → Result (Unit {0}) × Socket A → Result (Unit {0}) × Socket A
  left n r = (r.0, record r.1 { poller = leave n r.1.poller })

  unfoldable pub live : List (Moment A) → Error → Action (Socket A) (Unit {0})
  live moments last s =
      let (n, p) = enter s.poller in
      try_except (λ s. left n (live_loop n moments last s)) on_disconnect (record s { poller = p })
