-- ===== src/Web/Recorder/Pipeline/Stored.antt =====
-- What the store holds of the readings that the poller gave.
use mathlib.Core.List.{append-nil}
use owon_xdm1041_server.Base.{
  ◌≡◌, refl, ℕ, ◌+◌, Option, none, some, List, [], ◌∷◌, ◌++◌, length, Result, Error, All, ◌⊎◌, ok,
  err, arith, inl, inr,
}
use owon_xdm1041_server.Base.Floats.{Floats}
use owon_xdm1041_server.Device.Driver.{read_measurement}
use owon_xdm1041_server.Device.Transport.{Transport}
use owon_xdm1041_server.Models.{Reading, from_measurement}
use owon_xdm1041_server.Storage.{Sqlite, Database, insert_reading}
use owon_xdm1041_server.Web.Broadcast.{Subscription, next_reading, publish}
use owon_xdm1041_server.Web.Broadcast.Listening.{
  IsListening, publish-IsListening, join-IsListening, unregister-IsListening, take-IsListening,
}
use owon_xdm1041_server.Web.Broadcast.Stream.{IsSubsequence}
use owon_xdm1041_server.Web.Poller.Registering.{broadcaster-enter, broadcaster-leave}
use owon_xdm1041_server.Web.Poller.{Live, poll_once}
use owon_xdm1041_server.Web.Recorder.{run}
use owon_xdm1041_server.Web.Recorder.Recording.{Appends, inserted, run-appends}
use owon_xdm1041_server.Web.Recorder.Pipeline.{
  Pipeline, Event, polls, records, enters, leaves, others, recorded, step, run_events, Keeps, begin,
}

result_cases : {A : Type 0} (r : Result A) → ((e : Error) × (r ≡ err e)) ⊎ ((x : A) × (r ≡ ok x))
result_cases (ok x) = inr (x, refl)
result_cases (err e) = inl (e, refl)

module _ {F : Floats} (T : Transport) (default_timeout : ℕ) (Q : Sqlite F) (recorder : ℕ) where
  -- A round gives nothing and publishes nothing, or gives the reading that it publishes.
  poll_once_cases :
      (now : F.Float) (s : Live F T.State)
      → let r = poll_once F T default_timeout now s in
        ((e : Error) × (r.0 ≡ err e) × (r.1.poller ≡ s.poller))
        ⊎ ((x : Reading F) × (r.0 ≡ ok x)
            × (r.1.poller ≡ record s.poller { broadcaster = publish x s.poller.broadcaster }))
  unfolding poll_once
  poll_once_cases now s = elim (result_cases (read_measurement F T default_timeout s.device).0) [
    | inl (e, raised) ↦ inl (e, ground (arith, raised), ground (arith, raised))
    | inr (m, gave) ↦ inr (from_measurement F m now, ground (arith, gave), ground (arith, gave))
  ]

  abbrev pub Listens : ℕ → Pipeline F T Q → Type 0
  Listens size s = IsListening recorder size s.live.poller.broadcaster s.taken s.polled

  recorded-Listens :
      (size : ℕ) (o : Option (Reading F × Subscription (Reading F))) (s : Pipeline F T Q)
      → next_reading (s.live.poller.broadcaster.object recorder) ≡ o
      → Listens size s
      → Listens size (recorded T default_timeout Q recorder o s)
  recorded-Listens size none s e h = h
  recorded-Listens size (some (x, rest)) s e h =
      take-IsListening recorder size s.live.poller.broadcaster s.taken s.polled h x rest e

  step-Listens :
      (size : ℕ) (e : Event F T.State) (s : Pipeline F T Q)
      → Keeps T default_timeout Q recorder e
      → Listens size s
      → Listens size (step T default_timeout Q recorder e s)
  unfolding step
  step-Listens size (polls now) s o h = elim (poll_once_cases now s.live) [
    | inl (e, raised, same) ↦ rw (raised, same, append-nil s.polled) h
    | inr (x, gave, same) ↦
        rw (gave, same)
          (publish-IsListening recorder size s.live.poller.broadcaster s.taken s.polled h x)
  ]
  step-Listens size records s o h =
      recorded-Listens size (next_reading (s.live.poller.broadcaster.object recorder)) s refl h
  step-Listens size enters s o h =
      rw (broadcaster-enter s.live.poller)
        (join-IsListening recorder size s.live.poller.broadcaster s.taken s.polled h 100)
  step-Listens size (leaves n) s o h =
      rw (broadcaster-leave n s.live.poller)
        (unregister-IsListening recorder size s.live.poller.broadcaster s.taken s.polled h n o)
  step-Listens size (others f) s o h = h

  -- The store is what the recorder's loop makes of the readings taken.
  abbrev pub Stores : Database Q → Pipeline F T Q → Type 0
  Stores store s = s.store ≡ run Q s.taken store

  run-append :
      (rs : List (Reading F)) (x : Reading F) (d : Database Q)
      → run Q (rs ++ (x ∷ [])) d ≡ (insert_reading Q x (run Q rs d)).1
  unfolding run
  run-append [] x d = refl
  run-append (r ∷ rs) x d = run-append rs x (insert_reading Q r d).1

  recorded-Stores :
      (o : Option (Reading F × Subscription (Reading F))) (store : Database Q) (s : Pipeline F T Q)
      → Stores store s
      → Stores store (recorded T default_timeout Q recorder o s)
  recorded-Stores none store s h = h
  recorded-Stores (some (x, rest)) store s h = rw (h, run-append s.taken x store) refl

  step-Stores :
      (store : Database Q) (e : Event F T.State) (s : Pipeline F T Q)
      → Stores store s
      → Stores store (step T default_timeout Q recorder e s)
  unfolding step
  step-Stores store (polls now) s h = h
  step-Stores store records s h =
      recorded-Stores (next_reading (s.live.poller.broadcaster.object recorder)) store s h
  step-Stores store enters s h = h
  step-Stores store (leaves n) s h = h
  step-Stores store (others f) s h = h

  run_events_lem :
      (size : ℕ) (store : Database Q) (es : List (Event F T.State)) (s : Pipeline F T Q)
      → All (Keeps T default_timeout Q recorder) es
      → Listens size s
      → Stores store s
      → Listens size (run_events T default_timeout Q recorder es s)
        × Stores store (run_events T default_timeout Q recorder es s)
  unfolding run_events
  run_events_lem size store [] s o h k = (h, k)
  run_events_lem size store (e ∷ es) s (o, os) h k =
      run_events_lem size store es (step T default_timeout Q recorder e s) os
        (step-Listens size e s o h) (step-Stores store e s k)

  -- While the recorder is registered and no viewer leaves with its subscription, over a SQLite that
  -- appends the row of each INSERT that returns and of no other, and on an open connection:
  -- whatever the device does in the rounds of the poller, and however they, the recorder and the
  -- viewers take turns, the table grows just by readings that the recorder has taken, in order,
  -- each whose INSERT returns; what it has taken, and then what waits for it, is in order a part of
  -- what the rounds gave; and the readings dropped are exactly the rest in number.
  pub run_events-stored :
      (L : Appends Q) (conn : Q.Connection) (size : ℕ) (es : List (Event F T.State))
      (live : Live F T.State) (store : Database Q)
      → All (Keeps T default_timeout Q recorder) es
      → IsListening recorder size live.poller.broadcaster [] []
      → store.conn ≡ some conn
      → let e =
          run_events T default_timeout Q recorder es
            (begin T default_timeout Q recorder live store) in
        let subscription = e.live.poller.broadcaster.object recorder in
        let new = inserted Q L conn e.taken store in
        (L.table conn e.store.world ≡ L.table conn store.world ++ new)
        × IsSubsequence new e.taken
        × IsSubsequence (e.taken ++ subscription.queue) e.polled
        × (length e.taken + length subscription.queue + subscription.dropped ≡ length e.polled)
  run_events-stored L conn size es live store o h open_now =
      let start = begin T default_timeout Q recorder live store in
      let (listens, stores) = run_events_lem size store es start o h (unfold run in refl) in
      let e = run_events T default_timeout Q recorder es start in
      let (table, order) = run-appends Q L conn e.taken store open_now in
      (rw stores table, order, listens.faithful.ordered, listens.faithful.counted)
