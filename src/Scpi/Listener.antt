-- ===== src/Scpi/Listener.antt =====
-- src/owon_xdm1041_server/scpi/server.py: the listener, over asyncio's servers.
use owon_xdm1041_server.Base.{
  ◌≡◌, refl, ℕ, Bool, true, false, Option, none, some, Action, ok, assertion_error, pure, raise,
  try_finally, ◌>>=◌, ◌>>◌, Text, arith,
}

-- What the server uses of asyncio: `close` acts at once, the rest may raise.
pub record Asyncio : Type 1 where
  pub World : Type 0
  pub Server : Type 0
  pub start_server : Text → ℕ → Action World Server
  pub bound_port : Server → World → ℕ
  pub serve_forever : Server → Action World (Unit {0})
  pub close : Server → World → World
  pub wait_closed : Server → Action World (Unit {0})

pub record ScpiServer (N : Asyncio) : Type 0 where
  pub host : Text
  pub port : ℕ
  pub server : Option N.Server
  pub world : N.World

module _ (N : Asyncio) where
  abbrev pub on_world : {A : Type 0} → Action N.World A → Action (ScpiServer N) A
  on_world m s = let r = m s.world in (r.0, record s { world = r.1 })

  abbrev pub port_in : Option N.Server → ScpiServer N → ℕ
  port_in none s = s.port
  port_in (some v) s = N.bound_port v s.world

  -- The property `port`.
  unfoldable pub bound_port : ScpiServer N → ℕ
  bound_port s = port_in s.server s

  unfoldable pub start : Action (ScpiServer N) (Unit {0})
  start s =
      (do v ← on_world (N.start_server s.host s.port); λ s. (ok tt, record s { server = some v })) s

  -- `self._server.close()` and `await self._server.wait_closed()`
  abbrev pub shut : N.Server → Action (ScpiServer N) (Unit {0})
  shut v s = on_world (N.wait_closed v) (record s { world = N.close v s.world })

  abbrev pub start_if : Option N.Server → Action (ScpiServer N) (Unit {0})
  start_if none = start
  start_if (some v) = pure tt

  -- From the assertion on: `async with` shuts the server, however serving ends.
  abbrev pub serve_on : Option N.Server → Action (ScpiServer N) (Unit {0})
  serve_on none = raise assertion_error
  serve_on (some v) = try_finally (on_world (N.serve_forever v)) (shut v)

  unfoldable pub serve_forever : Action (ScpiServer N) (Unit {0})
  serve_forever s = (do start_if s.server; λ t. serve_on t.server t) s

  abbrev pub stop_with : Option N.Server → Action (ScpiServer N) (Unit {0})
  stop_with none = pure tt
  stop_with (some v) = do shut v; λ s. (ok tt, record s { server = none })

  unfoldable pub stop : Action (ScpiServer N) (Unit {0})
  stop s = stop_with s.server s

-- What asyncio documents: a server that is started accepts connections, one that is closed does
-- not, and waiting for its end does not open it again.
pub record IsAsyncio (N : Asyncio) : Type 0 where
  pub accepting : N.Server → N.World → Bool
  pub started :
      (host : Text) (port : ℕ) (w w' : N.World) (v : N.Server)
      → N.start_server host port w ≡ (ok v, w')
      → accepting v w' ≡ true
  pub closed : (v : N.Server) (w : N.World) → accepting v (N.close v w) ≡ false
  pub waited :
      (v : N.Server) (w : N.World)
      → accepting v w ≡ false
      → accepting v (N.wait_closed v w).1 ≡ false

module _ (N : Asyncio) (L : IsAsyncio N) where
  pub shut-closed : (v : N.Server) (s : ScpiServer N) → L.accepting v (shut N v s).1.world ≡ false
  shut-closed v s = L.waited v (N.close v s.world) (L.closed v s.world)

  pub start_lem :
      (s : ScpiServer N) (v : N.Server) (w : N.World)
      → N.start_server s.host s.port s.world ≡ (ok v, w)
      → start N s ≡ (ok tt, record s { server = some v; world = w })
  unfolding start
  start_lem s v w f = ground arith

  pub stop_lem :
      (s : ScpiServer N) (v : N.Server)
      → s.server ≡ some v
      → (N.wait_closed v (N.close v s.world)).0 ≡ ok tt
      → stop N s ≡ (ok tt, record s { server = none; world = (shut N v s).1.world })
  unfolding stop
  stop_lem s v e k = ground arith

  served :
      (s : ScpiServer N) (v : N.Server) (w : N.World)
      → s.server ≡ none
      → N.start_server s.host s.port s.world ≡ (ok v, w)
      → (serve_forever N s).1
        ≡ (shut N v (record s { server = some v; world = (N.serve_forever v w).1 })).1
  unfolding serve_forever
  served s v w e f = ground (arith, start_lem s v w f)

  -- Over an asyncio that keeps its documentation: `serve_forever` on a server that was not started
  -- starts it, and however its serving ends, by an exception too, no connection is accepted any
  -- more, nor after the `stop` that follows; where that returns, the server can be started again.
  pub serve_forever_closes :
      (s : ScpiServer N) (v : N.Server) (w : N.World)
      → s.server ≡ none
      → N.start_server s.host s.port s.world ≡ (ok v, w)
      → let r = serve_forever N s in
        let q = stop N r.1 in
        (N.wait_closed v (N.close v r.1.world)).0 ≡ ok tt
        → (r.1.server ≡ some v)
          × (L.accepting v r.1.world ≡ false)
          × (q.0 ≡ ok tt)
          × (L.accepting v q.1.world ≡ false)
          × (q.1.server ≡ none)
  serve_forever_closes s v w e f k =
      let t : ScpiServer N = record s { server = some v; world = (N.serve_forever v w).1 } in
      let whole = served s v w e f in
      let kept : (serve_forever N s).1.server ≡ some v = rw whole refl in
      let stops = stop_lem (serve_forever N s).1 v kept k in
      (
        kept,
        rw whole (shut-closed v t),
        rw stops refl,
        rw stops (shut-closed v (serve_forever N s).1),
        rw stops refl,
      )
