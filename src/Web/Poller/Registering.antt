-- ===== src/Web/Poller/Registering.antt =====
-- What a viewer who comes or goes does to the broadcaster.
use owon_xdm1041_server.Base.{◌≡◌, ℕ, arith}
use owon_xdm1041_server.Web.Broadcast.{subscribe, register, unregister}
use owon_xdm1041_server.Web.Poller.{Poller, enter, ensure_running, leave, stop}

module _ {A : Type 0} where
  pub broadcaster-enter :
      (p : Poller A)
      → let (n, b) = subscribe 100 p.broadcaster in (enter p).1.broadcaster ≡ register n b
  unfolding enter ensure_running
  broadcaster-enter p = ground arith

  pub broadcaster-leave :
      (n : ℕ) (p : Poller A) → (leave n p).broadcaster ≡ unregister n p.broadcaster
  unfolding leave stop
  broadcaster-leave n p = ground arith
