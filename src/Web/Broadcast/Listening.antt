-- ===== src/Web/Broadcast/Listening.antt =====
-- A subscription that stays registered while the others come and go, and what its owner has got.
use owon_xdm1041_server.Base.{
  ◌≡◌, ◌≢◌, ℕ, ◌<◌, true, false, some, List, [], ◌∷◌, ◌++◌, arith, ◌==◌, ==_iff,
}
use owon_xdm1041_server.Web.Broadcast.{
  Subscription, Broadcaster, next_reading, put_object, has_number, subscribe, register, unregister,
  publish,
}
use owon_xdm1041_server.Web.Broadcast.Fanout.{
  AllBelow, IsRegistry, publish_lem, has_number-without, register-IsRegistry, unregister-IsRegistry,
  subscribe-IsRegistry, object-register,
}
use owon_xdm1041_server.Web.Broadcast.Stream.{
  Client, IsFaithful, client_step, publish-IsFaithful, took-IsFaithful,
}

has_number-below : (k n : ℕ) (ns : List ℕ) → AllBelow k ns → has_number n ns ≡ true → n < k
has_number-below k n [] h e = absurd cc
has_number-below k n (m ∷ ns) (below, h) e = ground (arith, has_number-below k n ns h, ==_iff m n)

module _ {A : Type 0} (listener : ℕ) where
  -- The listener, as a client of the broadcaster.
  abbrev pub client : Broadcaster A → List A → List A → Client A
  client b received published = record {
    subscription = b.object listener;
    received = received;
    published = published;
  }

  -- The listener is registered, and has received what it should of what was published.
  pub record IsListening (size : ℕ) (b : Broadcaster A) (received published : List A) : Type 0 where
    pub registry : IsRegistry b
    pub registered : has_number listener b.subscriptions ≡ true
    pub faithful : IsFaithful size (client b received published)

  module _ (size : ℕ) (b : Broadcaster A) (received published : List A)
      (h : IsListening size b received published) where
    pub publish-IsListening :
        (x : A) → IsListening size (publish x b) received (published ++ (x ∷ []))
    publish-IsListening x = record {
      registry = unfold publish in record { nodup = h.registry.nodup; known = h.registry.known };
      registered = unfold publish in h.registered;
      faithful =
          rw (publish_lem x b listener h.registry, h.registered)
            (unfold client_step in
              publish-IsFaithful size x (client b received published) h.faithful);
    }

    pub join-IsListening :
        (maxsize : ℕ)
        → let (n, b') = subscribe maxsize b in IsListening size (register n b') received published
    unfolding subscribe
    join-IsListening maxsize =
        let below =
          has_number-below b.fresh listener b.subscriptions h.registry.known h.registered in
        let b' = (subscribe maxsize b).1 in
        record {
          registry =
              register-IsRegistry b.fresh b' (omega arith)
                (subscribe-IsRegistry maxsize b h.registry);
          registered = unfold register in ground (arith, h.registered);
          faithful =
              let away : b.fresh == listener ≡ false = ground (arith, ==_iff b.fresh listener) in
              rw (object-register b.fresh b') (rw away h.faithful);
        }

    pub unregister-IsListening :
        (n : ℕ) → n ≢ listener → IsListening size (unregister n b) received published
    unregister-IsListening n other = record {
      registry = unregister-IsRegistry n b h.registry;
      registered =
          unfold unregister in
          rw (has_number-without n listener b.subscriptions)
            (ground (arith, h.registered, ==_iff n listener));
      faithful = unfold unregister in h.faithful;
    }

    pub take-IsListening :
        (x : A) (rest : Subscription A)
        → next_reading (b.object listener) ≡ some (x, rest)
        → IsListening size
            (record b { object = put_object listener rest b.object })
            (received ++ (x ∷ []))
            published
    take-IsListening x rest e = record {
      registry = record { nodup = h.registry.nodup; known = h.registry.known };
      registered = h.registered;
      faithful =
          let same : listener == listener ≡ true = ground arith in
          rw same (took-IsFaithful size (client b received published) x rest e h.faithful);
    }
