-- ===== src/Device/Manager/Greeting.antt =====
-- The manager keeps the front panel usable: on each connection SYST:LOC comes first. The transport
-- is wrapped in one that records what happens on the line.
use owon_xdm1041_server.Base.{
  ℕ, ◌≡◌, Bool, true, false, ◌&&◌, ◌||◌, Option, List, [], ◌∷◌, arith, Result, ok, err, Text,
  text_eq,
}
use owon_xdm1041_server.Base.StringLaws.{text_eq_refl}
use owon_xdm1041_server.Device.Commands
use owon_xdm1041_server.Device.Transport.{Transport, IsTransport, only_transport_error}
use owon_xdm1041_server.Device.Manager.{
  connect, safe_close, reconnect, attempt, ensure_open, timeout_or_default, transact, start, stop,
  query, write,
}

-- A connection was made; a command was sent, and the flag says whether the transport returned.
pub data Event : Type 0 where
  opened : Event
  sent : Text → Bool → Event

pub record Logged (S : Type 0) : Type 0 where
  pub state : S
  pub log : List Event

abbrev succeeded : {A : Type 0} → Result A → Bool
succeeded (ok a) = true
succeeded (err e) = false

-- A connection is made where the line was closed and is open afterwards.
abbrev note_open : Bool → Bool → List Event → List Event
note_open false true log = opened ∷ log
note_open _ _ log = log

-- The same transport, with the newest event first in the log.
abbrev pub logged : Transport → Transport
logged T = record {
  State = Logged T.State;
  is_open = λ s. T.is_open s.state;
  open_line = λ s.
      let r = T.open_line s.state in
      (r.0, record { state = r.1; log = note_open (T.is_open s.state) (T.is_open r.1) s.log });
  close_line = λ s. let r = T.close_line s.state in (r.0, record s { state = r.1 });
  transact = λ c x t s.
      let r = T.transact c x t s.state in
      (r.0, record { state = r.1; log = sent c (succeeded r.0) ∷ s.log });
}

-- SYST:LOC has succeeded on the connection that is the latest.
abbrev pub is_greeted : List Event → Bool
is_greeted [] = false
is_greeted (opened ∷ log) = false
is_greeted (sent c done ∷ log) = (done && text_eq c Commands.local) || is_greeted log

-- Any other command was sent after SYST:LOC had succeeded on the same connection.
abbrev pub local_first : List Event → Bool
local_first [] = true
local_first (opened ∷ log) = local_first log
local_first (sent c done ∷ log) = (text_eq c Commands.local || is_greeted log) && local_first log

-- An open connection has been greeted, and whatever was sent before was sent after a greeting.
pub record IsGreeted (T : Transport) (s : Logged T.State) : Type 0 where
  pub disciplined : local_first s.log ≡ true
  pub ready : T.is_open s.state ≡ true → is_greeted s.log ≡ true

module _ (T : Transport) (default_timeout : ℕ) where
  -- The calls of a manager's methods. `start` counts only where it returns.
  pub data Step (s : Logged T.State) : Logged T.State → Type 0 where
    queried : (c : Text) (t : Option ℕ) → Step s (query (logged T) default_timeout c t s).1
    wrote : (c : Text) (t : Option ℕ) → Step s (write (logged T) default_timeout c t s).1
    stopped : Step s (stop (logged T) default_timeout s).1
    started :
        (start (logged T) default_timeout s).0 ≡ ok tt
        → Step s (start (logged T) default_timeout s).1

  pub data Reach (s : Logged T.State) : Logged T.State → Type 0 where
    here : Reach s s
    next : {t u : Logged T.State} → Reach s t → Step t u → Reach s u

module _ (T : Transport) (L : IsTransport T) (default_timeout : ℕ) where
  abbrev M : Transport
  M = logged T

  connect-ok :
      (s : Logged T.State)
      → IsGreeted T s
      → (connect M default_timeout s).0 ≡ ok tt
      → (is_greeted (connect M default_timeout s).1.log ≡ true)
        × (local_first (connect M default_timeout s).1.log ≡ true)
  unfolding connect
  connect-ok s h e =
      ground (arith, h.ready, h.disciplined, L.opens s.state, text_eq_refl Commands.local)

  connect-local_first :
      (s : Logged T.State) → IsGreeted T s → local_first (connect M default_timeout s).1.log ≡ true
  unfolding connect
  connect-local_first s h = ground (arith, h.disciplined, text_eq_refl Commands.local)

  safe_close-IsGreeted :
      (s : Logged T.State)
      → local_first s.log ≡ true
      → IsGreeted T (safe_close M default_timeout s).1
  unfolding safe_close
  safe_close-IsGreeted s h = ground (arith, L.closes s.state)

  connect_raises :
      (s : Logged T.State) → only_transport_error (connect M default_timeout s).0 ≡ true
  unfolding connect
  connect_raises s =
      ground (arith, L.open_raises s.state, L.local_raises default_timeout (T.open_line s.state).1)

  reconnect-IsGreeted :
      (s : Logged T.State) → IsGreeted T s → IsGreeted T (reconnect M default_timeout s).1
  unfolding reconnect
  reconnect-IsGreeted s h = ground (
    arith,
    connect_raises s,
    connect-ok s h,
    connect-local_first s h,
    safe_close-IsGreeted (connect M default_timeout s).1,
  )

  reconnect-ok :
      (s : Logged T.State)
      → IsGreeted T s
      → (reconnect M default_timeout s).0 ≡ ok tt
      → is_greeted (reconnect M default_timeout s).1.log ≡ true
  unfolding reconnect
  reconnect-ok s h e = ground (arith, connect-ok s h)

  attempt-IsGreeted :
      (c : Text) (x : Bool) (t : ℕ) (s : Logged T.State)
      → local_first s.log ≡ true
      → is_greeted s.log ≡ true
      → IsGreeted T (attempt M default_timeout c x t s).1
  unfolding attempt
  attempt-IsGreeted c x t s h g = ground (arith, safe_close-IsGreeted (M.transact c x t s).1)

  transact-IsGreeted :
      (c : Text) (x : Bool) (t : Option ℕ) (s : Logged T.State)
      → IsGreeted T s
      → IsGreeted T (transact M default_timeout c x t s).1
  unfolding transact ensure_open
  transact-IsGreeted c x t s h = ground (
    arith,
    h.ready,
    reconnect-IsGreeted s h,
    reconnect-ok s h,
    attempt-IsGreeted c x (timeout_or_default M default_timeout t) s h.disciplined,
    attempt-IsGreeted c x (timeout_or_default M default_timeout t)
        (reconnect M default_timeout s).1,
  )

  query-IsGreeted :
      (c : Text) (t : Option ℕ) (s : Logged T.State)
      → IsGreeted T s
      → IsGreeted T (query M default_timeout c t s).1
  unfolding query
  query-IsGreeted c t s h = ground (arith, transact-IsGreeted c true t s h)

  Step-IsGreeted :
      {s t : Logged T.State} → Step T default_timeout s t → IsGreeted T s → IsGreeted T t
  Step-IsGreeted {s} (queried c t) h = query-IsGreeted c t s h
  Step-IsGreeted {s} (wrote c t) h =
      unfold write in ground (arith, transact-IsGreeted c false t s h)
  Step-IsGreeted {s} stopped h = unfold stop in ground (arith, h.disciplined, L.closes s.state)
  Step-IsGreeted {s} (started e) h = unfold start in ground (arith, connect-ok s h)

  -- Over a transport that keeps its promises, from a closed line with nothing sent, whatever
  -- queries, writes, stops and successful starts follow, and whatever fails on the line: each
  -- command but SYST:LOC was sent on a connection on which SYST:LOC had succeeded before, and a
  -- connection that is open has been greeted so.
  pub Reach-IsGreeted :
      (s : T.State) (t : Logged T.State)
      → T.is_open s ≡ false
      → Reach T default_timeout (record { state = s; log = [] }) t
      → IsGreeted T t
  Reach-IsGreeted s t closed here = ground arith
  Reach-IsGreeted s t closed (next {t = u} r st) = Step-IsGreeted st (Reach-IsGreeted s u closed r)
