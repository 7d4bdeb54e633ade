-- ===== src/Web/Broadcast/Unordered.antt =====
-- src/owon_xdm1041_server/web/broadcast.py: the `set` of subscriptions, which Python goes through
-- in an order of its own, as the list that stands for it forgets its order.
use mathlib.Core.Quot
use mathlib.Core.Path.{fun_ext}
use owon_xdm1041_server.Base.{
  ◌≡◌, refl, ap, ℕ, suc, Option, none, some, List, [], ◌∷◌, arith, ==_iff,
}
use owon_xdm1041_server.Web.Broadcast.{
  Subscription, Broadcaster, next_reading, has_number, put_object, subscriber_count, subscribe,
  register, unregister, publish,
}
use owon_xdm1041_server.Web.Broadcast.NumberSet.{NumberSet, of_numbers, exact, length-same}
use owon_xdm1041_server.Web.Broadcast.Fanout.{
  IsNodup, deliver_all_lem, has_number-without, IsNodup-without,
}

-- What a broadcaster is, but for the order of its subscriptions.
pub record View (A : Type 0) : Type 0 where
  pub object : ℕ → Subscription A
  pub members : NumberSet
  pub fresh : ℕ

-- The operations on a broadcaster and its subscriptions.
pub data Operation (A : Type 0) : Type 0 where
  subscribes registers unregisters : ℕ → Operation A
  publishes : A → Operation A
  takes : ℕ → Operation A

-- Two broadcasters that differ in the order of their subscriptions at most.
pub record IsSame {A : Type 0} (b c : Broadcaster A) : Type 0 where
  pub object : b.object ≡ c.object
  pub fresh : b.fresh ≡ c.fresh
  pub numbers : (n : ℕ) → has_number n b.subscriptions ≡ has_number n c.subscriptions

module _ {A : Type 0} where
  abbrev pub view : (b : Broadcaster A) → IsNodup b.subscriptions → View A
  view b h = record {
    object = b.object;
    members = of_numbers (b.subscriptions, h);
    fresh = b.fresh;
  }

  view-IsSame :
      (b c : Broadcaster A) (h : IsNodup b.subscriptions) (k : IsNodup c.subscriptions)
      → view b h ≡ view c k
      → IsSame b c
  view-IsSame b c h k e = record {
    object = ap (λ v. v.object) e;
    fresh = ap (λ v. v.fresh) e;
    numbers = exact (b.subscriptions, h) (c.subscriptions, k) (ap (λ v. v.members) e);
  }

  pub IsSame-view :
      (b c : Broadcaster A) (h : IsNodup b.subscriptions) (k : IsNodup c.subscriptions)
      → IsSame b c
      → view b h ≡ view c k
  IsSame-view b c h k e =
      let members : of_numbers (b.subscriptions, h) ≡ of_numbers (c.subscriptions, k) =
        Quot.sound e.numbers in
      rw (e.object, e.fresh, members) refl

  abbrev taken : ℕ → Option (A × Subscription A) → Broadcaster A → Broadcaster A
  taken n none b = b
  taken n (some (x, s)) b = record b { object = put_object n s b.object }

  abbrev pub operate : Operation A → Broadcaster A → Broadcaster A
  operate (subscribes maxsize) b = (subscribe maxsize b).1
  operate (registers n) b = register n b
  operate (unregisters n) b = unregister n b
  operate (publishes x) b = publish x b
  operate (takes n) b = taken n (next_reading (b.object n)) b

  pub operate_all : List (Operation A) → Broadcaster A → Broadcaster A
  operate_all [] b = b
  operate_all (o ∷ os) b = operate_all os (operate o b)

  pub operate-IsNodup :
      (o : Operation A) (b : Broadcaster A)
      → IsNodup b.subscriptions
      → IsNodup (operate o b).subscriptions
  unfolding subscribe register unregister publish
  operate-IsNodup (subscribes maxsize) b h = h
  operate-IsNodup (registers n) b h = ground arith
  operate-IsNodup (unregisters n) b h = IsNodup-without n b.subscriptions h
  operate-IsNodup (publishes x) b h = h
  operate-IsNodup (takes n) b h = ground arith

  taken-object :
      (n : ℕ) (o : Option (A × Subscription A)) (b c : Broadcaster A)
      → b.object ≡ c.object
      → (taken n o b).object ≡ (taken n o c).object
  taken-object n none b c e = e
  taken-object n (some (x, s)) b c e = ap (put_object n s) e

  operate-IsSame :
      (o : Operation A) (b c : Broadcaster A)
      → IsNodup b.subscriptions
      → IsNodup c.subscriptions
      → IsSame b c
      → IsSame (operate o b) (operate o c)
  unfolding subscribe register unregister publish
  operate-IsSame (subscribes maxsize) b c h k e = record {
    object = rw (e.object, e.fresh) refl;
    fresh = ap suc e.fresh;
    numbers = e.numbers;
  }
  operate-IsSame (registers n) b c h k e = record {
    object = ground (arith, e.object);
    fresh = ground (arith, e.fresh);
    numbers = λ m. ground (arith, e.numbers m, e.numbers n, ==_iff n m);
  }
  operate-IsSame (unregisters n) b c h k e = record {
    object = e.object;
    fresh = e.fresh;
    numbers = λ m.
        rw
          (
            has_number-without n m b.subscriptions,
            has_number-without n m c.subscriptions,
            e.numbers m,
          )
          refl;
  }
  operate-IsSame (publishes x) b c h k e = record {
    object = fun_ext λ m.
        rw
          (
            deliver_all_lem x b.subscriptions b.object m h,
            deliver_all_lem x c.subscriptions c.object m k,
            e.object,
            e.numbers m,
          )
          refl;
    fresh = e.fresh;
    numbers = e.numbers;
  }
  operate-IsSame (takes n) b c h k e = record {
    object =
        rw (ap (λ (f : ℕ → Subscription A). next_reading (f n)) e.object)
          (taken-object n (next_reading (c.object n)) b c e.object);
    fresh = ground (arith, e.fresh);
    numbers = λ m. ground (arith, e.numbers m);
  }

  operate_all-IsNodup :
      (os : List (Operation A)) (b : Broadcaster A)
      → IsNodup b.subscriptions
      → IsNodup (operate_all os b).subscriptions
  unfolding operate_all
  operate_all-IsNodup [] b h = h
  operate_all-IsNodup (o ∷ os) b h = operate_all-IsNodup os (operate o b) (operate-IsNodup o b h)

  operate_all-IsSame :
      (os : List (Operation A)) (b c : Broadcaster A)
      → IsNodup b.subscriptions
      → IsNodup c.subscriptions
      → IsSame b c
      → IsSame (operate_all os b) (operate_all os c)
  unfolding operate_all
  operate_all-IsSame [] b c h k e = e
  operate_all-IsSame (o ∷ os) b c h k e =
      operate_all-IsSame os (operate o b) (operate o c) (operate-IsNodup o b h)
        (operate-IsNodup o c k) (operate-IsSame o b c h k e)

  -- Whatever operations follow on a broadcaster and its subscriptions, the order in which the set
  -- of subscriptions is held, and so gone through, makes no difference: from two broadcasters that
  -- are equal but for that order, the same operations lead to two that are, with the same queues
  -- and dropped readings in each subscription and the same number of subscribers, and with no
  -- subscription registered twice.
  pub operate_all-unordered :
      (os : List (Operation A)) (b c : Broadcaster A) (h : IsNodup b.subscriptions)
      (k : IsNodup c.subscriptions)
      → view b h ≡ view c k
      → let b' = operate_all os b in
        let c' = operate_all os c in
        (h' : IsNodup b'.subscriptions) × (k' : IsNodup c'.subscriptions) × (view b' h'
          ≡ view c' k')
        × ((n : ℕ) → b'.object n ≡ c'.object n)
        × (subscriber_count b' ≡ subscriber_count c')
  unfolding subscriber_count
  operate_all-unordered os b c h k e =
      let b' = operate_all os b in
      let c' = operate_all os c in
      let h' = operate_all-IsNodup os b h in
      let k' = operate_all-IsNodup os c k in
      let same = operate_all-IsSame os b c h k (view-IsSame b c h k e) in
      (
        h',
        k',
        IsSame-view b' c' h' k' same,
        λ n. ap (λ (f : ℕ → Subscription A). f n) same.object,
        length-same b'.subscriptions c'.subscriptions h' k' same.numbers,
      )
