-- ===== src/Web/Live/Viewer.antt =====
-- However a live socket ends, its viewer is gone.
use owon_xdm1041_server.Base.{
  ◌≡◌, ◌≢◌, ◌⊎◌, inl, inr, recover, refl, ℕ, ◌==◌, ◌-◌, false, not, ◌&&◌, List, Error, Result, ok,
  err, disconnected, arith,
}
use owon_xdm1041_server.Web.Broadcast.{unregister, has_number}
use owon_xdm1041_server.Web.Broadcast.Fanout.{has_number-without}
use owon_xdm1041_server.Web.Poller.{Poller, enter, leave, is_running, stop}
use owon_xdm1041_server.Web.Live.{Moment, Socket, live_loop, on_disconnect, left, live}

-- What the handler returns or raises, by how its loop ends.
abbrev caught : Result (Unit {0}) → Result (Unit {0})
caught (err disconnected) = ok tt
caught r = r

caught_lem :
    (r : Result (Unit {0}))
    → (caught r ≢ err disconnected)
      × ((r ≡ caught r) ⊎ ((r ≡ err disconnected) × (caught r ≡ ok tt)))
caught_lem (ok u) = (λ e. cc, inl refl)
caught_lem (err disconnected) = (λ e. cc, inr (refl, refl))
caught_lem (err e) = (λ f. cc, inl refl)

module _ {A : Type 0} where
  leave_lem :
      (n : ℕ) (p : Poller A)
      → (has_number n (leave n p).broadcaster.subscriptions ≡ false)
        × ((leave n p).subscribers ≡ p.subscribers - 1)
        × (is_running (leave n p) ≡ not (p.subscribers - 1 == 0) && is_running p)
  unfolding leave unregister stop is_running
  leave_lem n p =
      let gone = has_number-without n n p.broadcaster.subscriptions in
      (ground arith, ground arith, ground arith)

  recover-caught :
      (r : Result (Unit {0})) (s : Socket A) → recover on_disconnect r s ≡ (caught r, s)
  recover-caught (ok u) s = refl
  recover-caught (err disconnected) s = refl
  recover-caught (err e) s = refl

  -- Whatever arrives, whatever other tasks do to the poller meanwhile, and however the socket ends:
  -- the viewer is no longer registered, the count of subscribers is one less than at the end of its
  -- loop, and the poller runs on only if that leaves a subscriber. The end of the peer is no error,
  -- and any other exception is raised on.
  pub live_lem :
      (moments : List (Moment A)) (last : Error) (s : Socket A)
      → let n = (enter s.poller).0 in
        let e = live_loop n moments last (record s { poller = (enter s.poller).1 }) in
        let r = live moments last s in
        (has_number n r.1.poller.broadcaster.subscriptions ≡ false)
        × (r.1.poller.subscribers ≡ e.1.poller.subscribers - 1)
        × (is_running r.1.poller ≡ not (e.1.poller.subscribers - 1 == 0) && is_running e.1.poller)
        × (r.1.sent ≡ e.1.sent)
        × (r.0 ≢ err disconnected)
        × ((e.0 ≡ r.0) ⊎ ((e.0 ≡ err disconnected) × (r.0 ≡ ok tt)))
  unfolding live
  live_lem moments last s =
      let n = (enter s.poller).0 in
      let e = live_loop n moments last (record s { poller = (enter s.poller).1 }) in
      let (gone, fewer, running) = leave_lem n e.1.poller in
      let (no_error, ends) = caught_lem e.0 in
      rw (recover-caught e.0 (left n e).1) (gone, fewer, running, refl, no_error, ends)
