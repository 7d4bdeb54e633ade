-- ===== src/Device/Manager/Tasks.antt =====
-- src/owon_xdm1041_server/device/manager.py: the tasks that share a manager, and its lock.
pub mod Serial
pub mod Cancelled
pub mod Progress
use owon_xdm1041_server.Base.{
  ◌≡◌, ◌≢◌, ℕ, Bool, true, false, err, cancelled, ◌==◌, Option, none, some, List, [], ◌∷◌, Result,
  Text, if◌then◌else◌,
}
use owon_xdm1041_server.Device.Manager.Steps.{
  Job, Point, checking, closing, done, first_point, step,
}
use owon_xdm1041_server.Device.Transport.{Transport}

-- A task is elsewhere, waits for the lock, or holds it and stands at a point of its method.
pub data Stage : Type 0 where
  outside : Stage
  waiting : Job → Stage
  inside : Job → Point → Stage

abbrev pub update : ℕ → Stage → (ℕ → Stage) → ℕ → Stage
update i stage tasks j = if i == j then stage else tasks j

-- A method that a task has gone through, with what it returned or raised.
pub record Finished : Type 0 where
  pub job : Job
  pub result : Result (Option Text)

-- The transport, the holder of the lock, all tasks by number, the methods that have ended, the
-- latest first, and whether a cancelled task has left a thread that goes on at the port.
pub record Shared (S : Type 0) : Type 0 where
  pub device : S
  pub holder : Option ℕ
  pub tasks : ℕ → Stage
  pub ended : List Finished
  pub left_running : Bool

abbrev pub quiet : {S : Type 0} → S → Shared S
quiet s = record {
  device = s;
  holder = none;
  tasks = λ i. outside;
  ended = [];
  left_running = false;
}

-- Where a cancellation can reach a method and leave the transport as it is: in a wait for a thread
-- of `asyncio.to_thread` that has not begun, and after the last wait, before the task goes on.
-- `close` has taken the port from its field before it waits, so that it is not among them.
abbrev pub is_cancellable : Point → Bool
is_cancellable checking = false
is_cancellable closing = false
is_cancellable p = true

-- The waits, whose threads go on at the port where they have begun.
abbrev pub is_wait : Point → Bool
is_wait checking = false
is_wait (done r) = false
is_wait p = true

-- A task that is cancelled inside its method: no `except` of the manager catches `CancelledError`,
-- and `async with` gives the lock back.
abbrev pub cancel : {S : Type 0} → ℕ → Job → Shared S → Shared S
cancel i job s = record s {
  holder = none;
  tasks = update i outside s.tasks;
  ended = record { job = job; result = err cancelled } ∷ s.ended;
}

module _ (T : Transport) (default_timeout : ℕ) where
  abbrev pub advanced : ℕ → Job → Point × T.State → Shared T.State → Shared T.State
  advanced i job at s = record s { device = at.1; tasks = update i (inside job at.0) s.tasks }

  -- One step of one task. `asyncio.Lock` lets a task in only while nobody holds it, and the end of
  -- `async with` gives it back. A task can be cancelled while it waits for the lock, and inside,
  -- before its thread has begun (`cancels`) or since (`abandons`). From then on, of a wait and of
  -- the transport nothing is known but that the wait ends as it could from some state
  -- (`disturbed`).
  pub data Step (s : Shared T.State) : Shared T.State → Type 0 where
    calls :
        (i : ℕ) (job : Job)
        → s.tasks i ≡ outside
        → Step s (record s { tasks = update i (waiting job) s.tasks })
    acquires :
        (i : ℕ) (job : Job)
        → s.tasks i ≡ waiting job
        → s.holder ≡ none
        → Step s
            (record s { holder = some i; tasks = update i (inside job (first_point job)) s.tasks })
    goes_on :
        (i : ℕ) (job : Job) (p : Point)
        → s.tasks i ≡ inside job p
        → Step s (advanced i job (step T default_timeout job p s.device) s)
    releases :
        (i : ℕ) (job : Job) (r : Result (Option Text))
        → s.tasks i ≡ inside job (done r)
        → Step s (record s {
          holder = none;
          tasks = update i outside s.tasks;
          ended = record { job = job; result = r } ∷ s.ended;
        })
    gives_up :
        (i : ℕ) (job : Job)
        → s.tasks i ≡ waiting job
        → Step s (record s { tasks = update i outside s.tasks })
    cancels :
        (i : ℕ) (job : Job) (p : Point)
        → s.tasks i ≡ inside job p
        → is_cancellable p ≡ true
        → Step s (cancel i job s)
    abandons :
        (i : ℕ) (job : Job) (p : Point)
        → s.tasks i ≡ inside job p
        → is_wait p ≡ true
        → Step s (record (cancel i job s) { left_running = true })
    disturbed :
        (i : ℕ) (job : Job) (p : Point) (d d' : T.State)
        → s.left_running ≡ true
        → s.tasks i ≡ inside job p
        → Step s (advanced i job ((step T default_timeout job p d).0, d') s)

  pub data Reach (s : Shared T.State) : Shared T.State → Type 0 where
    here : Reach s s
    next : {t u : Shared T.State} → Reach s t → Step t u → Reach s u
