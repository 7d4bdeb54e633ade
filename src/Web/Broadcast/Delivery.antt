-- ===== src/Web/Broadcast/Delivery.antt =====
-- All subscriptions of a broadcaster at once, however its operations are interleaved.
use owon_xdm1041_server.Base.{
  ◌≡◌, refl, sym, subst, ℕ, ◌<◌, some, List, [], ◌∷◌, ◌++◌, arith, ◌==◌, Bool-cases, inl, inr,
  if◌then◌else◌,
}
use owon_xdm1041_server.Web.Broadcast.{
  Subscription, Broadcaster, next_reading, put_object, has_number, subscribe, register, unregister,
  publish,
}
use owon_xdm1041_server.Web.Broadcast.Fanout.{
  IsRegistry, publish_lem, register-IsRegistry, unregister-IsRegistry, subscribe-IsRegistry,
  object-register,
}
use owon_xdm1041_server.Web.Broadcast.Stream
use owon_xdm1041_server.Web.Broadcast.Stream.{
  Client, IsFaithful, done, take_next, client_step, publish-IsFaithful, took-IsFaithful,
}

-- A broadcaster, with what the owner of each subscription has received and what was published while
-- that subscription was registered.
pub record Fanned (A : Type 0) : Type 0 where
  pub broadcaster : Broadcaster A
  pub received : ℕ → List A
  pub published : ℕ → List A

module _ {A : Type 0} where
  abbrev pub put_list : ℕ → List A → (ℕ → List A) → ℕ → List A
  put_list n xs lists m = if n == m then xs else lists m

  abbrev pub new_fanned : Fanned A
  new_fanned = record {
    broadcaster = record {
      object = λ n. record { queue = []; maxsize = 0; dropped = 0 };
      subscriptions = [];
      fresh = 0;
    };
    received = λ n. [];
    published = λ n. [];
  }

  -- A new subscription, which nobody has had before.
  abbrev pub subscribed : ℕ → Fanned A → Fanned A
  subscribed maxsize s =
      let (n, b) = subscribe maxsize s.broadcaster in
      record {
        broadcaster = b;
        received = put_list n [] s.received;
        published = put_list n [] s.published;
      }

  abbrev pub publishes_to : List ℕ → A → (ℕ → List A) → ℕ → List A
  publishes_to subscriptions x lists n =
      if has_number n subscriptions then lists n ++ (x ∷ []) else lists n

  abbrev pub spread : A → Fanned A → Fanned A
  spread x s = record {
    broadcaster = publish x s.broadcaster;
    received = s.received;
    published = publishes_to s.broadcaster.subscriptions x s.published;
  }

  -- The owner of a subscription has taken a reading from its queue.
  abbrev pub took : ℕ → A → Subscription A → Fanned A → Fanned A
  took n x rest s = record s {
    broadcaster = record s.broadcaster { object = put_object n rest s.broadcaster.object };
    received = put_list n (s.received n ++ (x ∷ [])) s.received;
  }

  pub data Step (s : Fanned A) : Fanned A → Type 0 where
    subscribes : (maxsize : ℕ) → Step s (subscribed maxsize s)
    registers :
        (n : ℕ)
        → n < s.broadcaster.fresh
        → Step s (record s { broadcaster = register n s.broadcaster })
    unregisters : (n : ℕ) → Step s (record s { broadcaster = unregister n s.broadcaster })
    publishes : (x : A) → Step s (spread x s)
    takes :
        (n : ℕ) (x : A) (rest : Subscription A)
        → next_reading (s.broadcaster.object n) ≡ some (x, rest)
        → Step s (took n x rest s)

  pub data Reach : Fanned A → Type 0 where
    here : Reach new_fanned
    next : {s t : Fanned A} → Reach s → Step s t → Reach t

  abbrev pub client_of : Fanned A → ℕ → Client A
  client_of s n = record {
    subscription = s.broadcaster.object n;
    received = s.received n;
    published = s.published n;
  }

  pub record IsDelivered (s : Fanned A) : Type 0 where
    pub registry : IsRegistry s.broadcaster
    pub faithful : (n : ℕ) → IsFaithful (s.broadcaster.object n).maxsize (client_of s n)

  -- The bound of a subscription is the one that it has.
  resized : (k : ℕ) (c : Client A) → IsFaithful k c → IsFaithful c.subscription.maxsize c
  resized k c h = subst (λ m. IsFaithful m c) (sym h.size) h

  new-IsFaithful :
      (maxsize : ℕ)
      → IsFaithful {A = A} maxsize (record {
        subscription = record { queue = []; maxsize = maxsize; dropped = 0 };
        received = [];
        published = [];
      })
  new-IsFaithful maxsize = record {
    size = refl;
    ordered = done;
    counted = omega arith;
    bounded = λ positive. omega arith;
  }

  subscribed-IsDelivered :
      (maxsize : ℕ) (s : Fanned A) → IsDelivered s → IsDelivered (subscribed maxsize s)
  subscribed-IsDelivered maxsize s h = record {
    registry = subscribe-IsRegistry maxsize s.broadcaster h.registry;
    faithful = λ n.
        unfold subscribe in
        elim (Bool-cases (s.broadcaster.fresh == n)) [
          | inl same ↦ rw same (new-IsFaithful maxsize)
          | inr other ↦ rw other (h.faithful n)
        ];
  }

  spread-IsDelivered : (x : A) (s : Fanned A) → IsDelivered s → IsDelivered (spread x s)
  spread-IsDelivered x s h = record {
    registry = unfold publish in record { nodup = h.registry.nodup; known = h.registry.known };
    faithful = λ n.
        let c = client_of s n in
        rw (publish_lem x s.broadcaster n h.registry)
          (elim (Bool-cases (has_number n s.broadcaster.subscriptions)) [
            | inl there ↦ rw there (
                unfold client_step in
                resized c.subscription.maxsize (client_step (Stream.publish x) c)
                  (publish-IsFaithful c.subscription.maxsize x c (h.faithful n)))
            | inr away ↦ rw away (h.faithful n)
          ]);
  }

  took-IsDelivered :
      (n : ℕ) (x : A) (rest : Subscription A) (s : Fanned A)
      → next_reading (s.broadcaster.object n) ≡ some (x, rest)
      → IsDelivered s
      → IsDelivered (took n x rest s)
  took-IsDelivered n x rest s e h = record {
    registry = record { nodup = h.registry.nodup; known = h.registry.known };
    faithful = λ m.
        let c = client_of s n in
        let d : Client A = record c { subscription = rest; received = c.received ++ (x ∷ []) } in
        let faithful = took-IsFaithful c.subscription.maxsize c x rest e (h.faithful n) in
        elim (Bool-cases (n == m)) [
          | inl same ↦
              let here : n ≡ m = ground arith in
              rw same (
                subst (λ k. IsFaithful rest.maxsize (record d { published = s.published k })) here
                  (resized c.subscription.maxsize d faithful))
          | inr other ↦ rw other (h.faithful m)
        ];
  }

  Step-IsDelivered : {s t : Fanned A} → Step s t → IsDelivered s → IsDelivered t
  Step-IsDelivered {s} (subscribes maxsize) h = subscribed-IsDelivered maxsize s h
  Step-IsDelivered {s} (registers n below) h = record {
    registry = register-IsRegistry n s.broadcaster below h.registry;
    faithful = λ m. rw (object-register n s.broadcaster) (h.faithful m);
  }
  Step-IsDelivered {s} (unregisters n) h = record {
    registry = unregister-IsRegistry n s.broadcaster h.registry;
    faithful = unfold unregister in h.faithful;
  }
  Step-IsDelivered {s} (publishes x) h = spread-IsDelivered x s h
  Step-IsDelivered {s} (takes n x rest e) h = took-IsDelivered n x rest s e h

  Reach-IsDelivered : (s : Fanned A) → Reach s → IsDelivered s
  Reach-IsDelivered s here = record {
    registry = record { nodup = tt; known = tt };
    faithful = λ n. new-IsFaithful 0;
  }
  Reach-IsDelivered s (next {s = t} r st) = Step-IsDelivered st (Reach-IsDelivered t r)

  -- However subscriptions are made, registered and unregistered, readings published and received:
  -- what the owner of each subscription has received and what waits for it is, in order, a part of
  -- what was published while it was registered; the readings dropped are exactly the rest in
  -- number; and no queue passes its bound, where it has one.
  pub Reach-IsFaithful :
      (s : Fanned A) (n : ℕ) → Reach s → IsFaithful (s.broadcaster.object n).maxsize (client_of s n)
  Reach-IsFaithful s n r = (Reach-IsDelivered s r).faithful n
