-- ===== src/Web/Poller/OnDemand.antt =====
-- The poller samples exactly while viewers are subscribed.
use owon_xdm1041_server.Base.{
  ◌≡◌, refl, ℕ, suc, true, false, none, List, [], ◌∷◌, arith, ltb, ==_iff, length,
}
use owon_xdm1041_server.Web.Broadcast.{
  Subscription, has_number, without_number, subscribe, register, unregister,
}
use owon_xdm1041_server.Web.Broadcast.Fanout.{
  IsNodup, AllBelow, AllBelow-suc, AllBelow-without, IsNodup-without, has_number-without,
  IsRegistry, unregister-IsRegistry,
}
use owon_xdm1041_server.Web.Poller.Registering.{broadcaster-leave}
use owon_xdm1041_server.Web.Poller.{Poller, is_running, ensure_running, stop, enter, leave}

-- The poller, with the subscriptions of the clients that are inside `subscribe`.
pub record Watched (A : Type 0) : Type 0 where
  pub poller : Poller A
  pub viewers : List ℕ

module _ {A : Type 0} where
  abbrev pub entered : Watched A → Watched A
  entered w = let (n, p) = enter w.poller in record { poller = p; viewers = n ∷ w.viewers }

  abbrev pub left : ℕ → Watched A → Watched A
  left n w = record { poller = leave n w.poller; viewers = without_number n w.viewers }

  -- The queues may change, as by `publish` and by the clients; who is registered stays.
  abbrev pub with_objects : (ℕ → Subscription A) → Watched A → Watched A
  with_objects object w = record w {
    poller = record w.poller { broadcaster = record w.poller.broadcaster { object = object } };
  }

  -- A listener that is no viewer, as the recorder.
  abbrev pub listened : ℕ → Watched A → Watched A
  listened maxsize w =
      let (n, b) = subscribe maxsize w.poller.broadcaster in
      record w { poller = record w.poller { broadcaster = register n b } }

  abbrev pub unlistened : ℕ → Watched A → Watched A
  unlistened n w = record w {
    poller = record w.poller { broadcaster = unregister n w.poller.broadcaster };
  }

-- What the event loop may do next.
pub data Step {A : Type 0} (w : Watched A) : Watched A → Type 0 where
  viewer_enters : Step w (entered w)
  viewer_leaves : (n : ℕ) → has_number n w.viewers ≡ true → Step w (left n w)
  queues_change : (object : ℕ → Subscription A) → Step w (with_objects object w)
  listener_enters : (maxsize : ℕ) → Step w (listened maxsize w)
  listener_leaves : (n : ℕ) → has_number n w.viewers ≡ false → Step w (unlistened n w)

pub data Reach {A : Type 0} (w : Watched A) : Watched A → Type 0 where
  here : Reach w w
  next : {u v : Watched A} → Reach w u → Step u v → Reach w v

-- There is a task exactly while there are viewers; the count is theirs; and each of them is
-- registered with the broadcaster.
pub record IsOnDemand {A : Type 0} (w : Watched A) : Type 0 where
  pub running : is_running w.poller ≡ ltb 0 (length w.viewers)
  pub counted : w.poller.subscribers ≡ length w.viewers
  pub registry : IsRegistry w.poller.broadcaster
  pub distinct : IsNodup w.viewers
  pub known : AllBelow w.poller.broadcaster.fresh w.viewers
  pub registered :
      (n : ℕ)
      → has_number n w.viewers ≡ true
      → has_number n w.poller.broadcaster.subscriptions ≡ true

length-without_absent :
    (n : ℕ) (ns : List ℕ) → has_number n ns ≡ false → length (without_number n ns) ≡ length ns
length-without_absent n [] h = refl
length-without_absent n (m ∷ ns) h = ground (arith, length-without_absent n ns)

length-without :
    (n : ℕ) (ns : List ℕ)
    → IsNodup ns
    → has_number n ns ≡ true
    → suc (length (without_number n ns)) ≡ length ns
length-without n [] h i = cc
length-without n (m ∷ ns) (fresh, h) i =
    ground (arith, length-without n ns h, length-without_absent n ns, ==_iff m n)

absent_of_below : (k : ℕ) (ns : List ℕ) → AllBelow k ns → has_number k ns ≡ false
absent_of_below k [] h = refl
absent_of_below k (n ∷ ns) (below, h) = ground (arith, absent_of_below k ns h)

-- Who is left of the viewers is left of the registered.
kept_without :
    (n m : ℕ) (viewers ns : List ℕ)
    → (has_number m viewers ≡ true → has_number m ns ≡ true)
    → has_number m (without_number n viewers) ≡ true
    → has_number m (without_number n ns) ≡ true
kept_without n m viewers ns h i =
    ground (arith, has_number-without n m viewers, has_number-without n m ns)

module _ {A : Type 0} where
  entered-IsOnDemand : (w : Watched A) → IsOnDemand w → IsOnDemand (entered w)
  unfolding enter ensure_running is_running subscribe register
  entered-IsOnDemand w h = record {
    running = ground arith;
    counted = ground (arith, h.counted);
    registry = ground (
      arith,
      h.registry,
      absent_of_below w.poller.broadcaster.fresh w.poller.broadcaster.subscriptions
          h.registry.known,
      AllBelow-suc w.poller.broadcaster.fresh w.poller.broadcaster.subscriptions h.registry.known,
    );
    distinct =
        ground (arith, h.distinct, absent_of_below w.poller.broadcaster.fresh w.viewers h.known);
    known = ground (arith, h.known, AllBelow-suc w.poller.broadcaster.fresh w.viewers h.known);
    registered = λ n i. ground (arith, h.registered n, ==_iff w.poller.broadcaster.fresh n);
  }

  left-IsOnDemand :
      (n : ℕ) (w : Watched A) → has_number n w.viewers ≡ true → IsOnDemand w → IsOnDemand (left n w)
  unfolding leave stop is_running unregister
  left-IsOnDemand n w i h = record {
    running = ground (arith, h.running, h.counted, length-without n w.viewers h.distinct);
    counted = ground (arith, h.counted, length-without n w.viewers h.distinct);
    registry = rw broadcaster-leave (unregister-IsRegistry n w.poller.broadcaster h.registry);
    distinct = IsNodup-without n w.viewers h.distinct;
    known = rw broadcaster-leave (AllBelow-without w.poller.broadcaster.fresh n w.viewers h.known);
    registered = λ m j. rw broadcaster-leave (kept_without n m w.viewers _ (h.registered m) j);
  }

  unlistened-IsOnDemand :
      (n : ℕ) (w : Watched A)
      → has_number n w.viewers ≡ false
      → IsOnDemand w
      → IsOnDemand (unlistened n w)
  unfolding is_running unregister
  unlistened-IsOnDemand n w i h = record {
    running = h.running;
    counted = h.counted;
    registry = unregister-IsRegistry n w.poller.broadcaster h.registry;
    distinct = h.distinct;
    known = h.known;
    registered = λ m j.
        kept_without n m w.viewers w.poller.broadcaster.subscriptions (h.registered m)
          (ground (arith, has_number-without n m w.viewers, ==_iff n m));
  }

  listened-IsOnDemand :
      (maxsize : ℕ) (w : Watched A) → IsOnDemand w → IsOnDemand (listened maxsize w)
  unfolding subscribe register is_running
  listened-IsOnDemand maxsize w h = record {
    running = h.running;
    counted = h.counted;
    registry = ground (
      arith,
      h.registry,
      absent_of_below w.poller.broadcaster.fresh w.poller.broadcaster.subscriptions
          h.registry.known,
      AllBelow-suc w.poller.broadcaster.fresh w.poller.broadcaster.subscriptions h.registry.known,
    );
    distinct = h.distinct;
    known = ground (arith, AllBelow-suc w.poller.broadcaster.fresh w.viewers h.known);
    registered = λ n i. ground (arith, h.registered n);
  }

  Step-IsOnDemand : {w v : Watched A} → Step w v → IsOnDemand w → IsOnDemand v
  Step-IsOnDemand {w} viewer_enters h = entered-IsOnDemand w h
  Step-IsOnDemand {w} (viewer_leaves n i) h = left-IsOnDemand n w i h
  Step-IsOnDemand (queues_change object) h =
      unfold is_running in
      record {
        running = h.running;
        counted = h.counted;
        registry = record { nodup = h.registry.nodup; known = h.registry.known };
        distinct = h.distinct;
        known = h.known;
        registered = h.registered;
      }
  Step-IsOnDemand {w} (listener_enters maxsize) h = listened-IsOnDemand maxsize w h
  Step-IsOnDemand {w} (listener_leaves n i) h = unlistened-IsOnDemand n w i h

  abbrev pub new_watched : Watched A
  new_watched = record {
    poller = record {
      broadcaster = record {
        object = λ n. record { queue = []; maxsize = 0; dropped = 0 };
        subscriptions = [];
        fresh = 0;
      };
      task = none;
      next_task = 0;
      subscribers = 0;
    };
    viewers = [];
  }

  -- However viewers come and go, the recorder and other listeners with them, and whatever is
  -- published and received: the polling task is there exactly while there is a viewer, the count of
  -- subscribers is the number of viewers, and each viewer is registered, once, with the
  -- broadcaster.
  pub Reach-IsOnDemand : (w : Watched A) → Reach new_watched w → IsOnDemand w
  Reach-IsOnDemand w here =
      unfold is_running in
      record {
        running = refl;
        counted = refl;
        registry = record { nodup = tt; known = tt };
        distinct = tt;
        known = tt;
        registered = λ n h. h;
      }
  Reach-IsOnDemand w (next {u = u} r st) = Step-IsOnDemand st (Reach-IsOnDemand u r)
