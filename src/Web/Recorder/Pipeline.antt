-- ===== src/Web/Recorder/Pipeline.antt =====
-- From the meter to the store: the rounds of the poller (web/poller.py), the recorder's
-- subscription (web/broadcast.py) and the loop of the recorder (web/recorder.py), with viewers who
-- come and go.
pub mod Stored
use owon_xdm1041_server.Base.{◌≢◌, ℕ, ◌+◌, Option, none, some, List, [], ◌∷◌, ◌++◌, Result, ok, err}
use owon_xdm1041_server.Base.Floats.{Floats}
use owon_xdm1041_server.Device.Transport.{Transport}
use owon_xdm1041_server.Models.{Reading}
use owon_xdm1041_server.Storage.{Sqlite, Database, insert_reading}
use owon_xdm1041_server.Web.Broadcast.{Subscription, Broadcaster, next_reading, put_object}
use owon_xdm1041_server.Web.Poller.{Live, poll_once, enter, leave}

-- The poller with its device, the store, and what has happened: the readings that the rounds of the
-- poller gave, and those that the recorder took from its subscription.
pub record Pipeline (F : Floats) (T : Transport) (Q : Sqlite F) : Type 0 where
  pub live : Live F T.State
  pub store : Database Q
  pub polled : List (Reading F)
  pub taken : List (Reading F)

-- A round of the poller at a time; the recorder takes a reading, if one waits, and inserts it; a
-- viewer comes, or leaves; and another task changes the device.
pub data Event (F : Floats) (S : Type 0) : Type 0 where
  polls : F.Float → Event F S
  records enters : Event F S
  leaves : ℕ → Event F S
  others : (S → S) → Event F S

-- What a round gave.
abbrev pub given : {A : Type 0} → Result A → List A
given (ok x) = x ∷ []
given (err e) = []

module _ {F : Floats} {S : Type 0} where
  abbrev pub with_broadcaster : Broadcaster (Reading F) → Live F S → Live F S
  with_broadcaster b s = record s { poller = record s.poller { broadcaster = b } }

module _ {F : Floats} (T : Transport) (default_timeout : ℕ) (Q : Sqlite F) (recorder : ℕ) where
  abbrev pub recorded :
      Option (Reading F × Subscription (Reading F)) → Pipeline F T Q → Pipeline F T Q
  recorded none s = s
  recorded (some (x, rest)) s =
      let b = s.live.poller.broadcaster in
      record s {
        live = with_broadcaster (record b { object = put_object recorder rest b.object }) s.live;
        store = (insert_reading Q x s.store).1;
        taken = s.taken ++ (x ∷ []);
      }

  unfoldable pub step : Event F T.State → Pipeline F T Q → Pipeline F T Q
  step (polls now) s =
      let r = poll_once F T default_timeout now s.live in
      record s { live = r.1; polled = s.polled ++ given r.0 }
  step records s = recorded (next_reading (s.live.poller.broadcaster.object recorder)) s
  step enters s = record s { live = record s.live { poller = (enter s.live.poller).1 } }
  step (leaves n) s = record s { live = record s.live { poller = leave n s.live.poller } }
  step (others f) s = record s { live = record s.live { device = f s.live.device } }

  unfoldable pub run_events : List (Event F T.State) → Pipeline F T Q → Pipeline F T Q
  unfolding step
  run_events [] s = s
  run_events (e ∷ es) s = run_events es (step e s)

  -- No viewer leaves with the recorder's subscription.
  abbrev pub Keeps : Event F T.State → Type 0
  Keeps (leaves n) = n ≢ recorder
  Keeps e = Unit {0}

  -- Before anything has happened.
  abbrev pub begin : Live F T.State → Database Q → Pipeline F T Q
  begin live store = record { live = live; store = store; polled = []; taken = [] }
