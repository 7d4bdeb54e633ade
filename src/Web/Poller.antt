-- ===== src/Web/Poller.antt =====
-- src/owon_xdm1041_server/web/poller.py: the meter is sampled only while clients watch. A method
-- without a wait inside is one step; the task is known by a number, and a task that was cancelled
-- does not sample again.
pub mod Registering
pub mod OnDemand
pub mod Sampling
use owon_xdm1041_server.Base.{
  ℕ, suc, ◌-◌, Bool, true, false, Option, none, some, List, [], ◌∷◌, ◌==◌, if◌then◌else◌, Action,
  Result, ok, err, resume, pure, ◌>>=◌, ◌>>◌,
}
use owon_xdm1041_server.Base.Floats.{Floats}
use owon_xdm1041_server.Device.Driver.{read_measurement}
use owon_xdm1041_server.Device.Transport.{Transport}
use owon_xdm1041_server.Models.{Reading, from_measurement}
use owon_xdm1041_server.Web.Broadcast.{
  Broadcaster, subscribe, enter_subscription, exit_subscription, publish,
}

pub record Poller (A : Type 0) : Type 0 where
  pub broadcaster : Broadcaster A
  pub task : Option ℕ
  pub next_task : ℕ
  pub subscribers : ℕ

module _ {A : Type 0} where
  unfoldable pub is_running : Poller A → Bool
  is_running p = elim p.task [ none ↦ false | some t ↦ true ]

  abbrev create_task : Option ℕ → Poller A → Poller A
  create_task none p = record p { task = some p.next_task; next_task = suc p.next_task }
  create_task (some t) p = p

  -- `_ensure_running`
  unfoldable pub ensure_running : Poller A → Poller A
  ensure_running p = create_task p.task p

  -- `_stop`: the task is cancelled, and its end awaited, after which it takes no further sample. A
  -- round of it that is cut short is a change of the device only.
  unfoldable pub stop : Poller A → Poller A
  stop p = record p { task = none }

  -- `subscribe` up to the `yield`: the number of the new subscription, and the poller.
  unfoldable pub enter : Poller A → ℕ × Poller A
  enter p =
      let p = ensure_running (record p { subscribers = suc p.subscribers }) in
      let (n, b) = subscribe 100 p.broadcaster in
      let (subscription, b) = enter_subscription n b in (subscription, record p { broadcaster = b })

  -- `subscribe` after the `yield`, however its block was left.
  unfoldable pub leave : ℕ → Poller A → Poller A
  leave n p =
      let p = record p {
        broadcaster = exit_subscription n p.broadcaster;
        subscribers = p.subscribers - 1;
      } in
      if p.subscribers == 0 then stop p else p

-- The poller beside the device that its driver talks to.
pub record Live (F : Floats) (S : Type 0) : Type 0 where
  pub poller : Poller (Reading F)
  pub device : S

-- A step of the driver.
abbrev pub on_driver : {F : Floats} {S A : Type 0} → Action S A → Action (Live F S) A
on_driver m s = let r = m s.device in (r.0, record s { device = r.1 })

-- `await self._broadcaster.publish(reading)`
abbrev pub publish_live : {F : Floats} {S : Type 0} → Reading F → Action (Live F S) (Unit {0})
publish_live reading s = (
  ok tt,
  record s { poller = record s.poller { broadcaster = publish reading s.poller.broadcaster } },
)

module _ (F : Floats) (T : Transport) (default_timeout : ℕ) where
  -- `poll_once`, where the clock shows `now`.
  unfoldable pub poll_once : F.Float → Action (Live F T.State) (Reading F)
  poll_once now = do
    measurement ← on_driver (read_measurement F T default_timeout)
    let reading = from_measurement F measurement now
    publish_live reading
    pure reading

  -- One round of `_loop`: an exception is logged, and the loop goes on.
  unfoldable pub poll_round : F.Float → Live F T.State → Live F T.State
  poll_round now s = (poll_once now s).1
