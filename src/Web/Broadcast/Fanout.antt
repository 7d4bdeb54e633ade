-- ===== src/Web/Broadcast/Fanout.antt =====
-- Publishing reaches each registered subscription once, whatever the others do.
use owon_xdm1041_server.Base.{
  ◌≡◌, ◌∙◌, refl, ℕ, suc, ◌<◌, false, List, [], ◌∷◌, arith, ◌==◌, ==_iff, if◌then◌else◌,
}
use owon_xdm1041_server.Web.Broadcast.{
  Subscription, Broadcaster, deliver, has_number, without_number, put_object, subscribe, register,
  unregister, deliver_all, publish,
}

-- No number twice, and each below the next one.
abbrev pub IsNodup : List ℕ → Type 0
IsNodup [] = Unit
IsNodup (n ∷ ns) = (has_number n ns ≡ false) × IsNodup ns

abbrev pub AllBelow : ℕ → List ℕ → Type 0
AllBelow k [] = Unit
AllBelow k (n ∷ ns) = (n < k) × AllBelow k ns

pub record IsRegistry {A : Type 0} (b : Broadcaster A) : Type 0 where
  pub nodup : IsNodup b.subscriptions
  pub known : AllBelow b.fresh b.subscriptions

pub has_number-without :
    (n m : ℕ) (ns : List ℕ)
    → has_number m (without_number n ns) ≡ (if n == m then false else has_number m ns)
has_number-without n m [] = ground arith
has_number-without n m (k ∷ ns) = ground (arith, has_number-without n m ns)

pub IsNodup-without : (n : ℕ) (ns : List ℕ) → IsNodup ns → IsNodup (without_number n ns)
IsNodup-without n [] h = tt
IsNodup-without n (k ∷ ns) (fresh, h) =
    ground (arith, IsNodup-without n ns h, has_number-without n k ns)

pub AllBelow-without : (k n : ℕ) (ns : List ℕ) → AllBelow k ns → AllBelow k (without_number n ns)
AllBelow-without k n [] h = tt
AllBelow-without k n (m ∷ ns) (below, h) = ground (arith, AllBelow-without k n ns h)

pub AllBelow-suc : (k : ℕ) (ns : List ℕ) → AllBelow k ns → AllBelow (suc k) ns
AllBelow-suc k [] h = tt
AllBelow-suc k (n ∷ ns) (below, h) = (omega arith, AllBelow-suc k ns h)

module _ {A : Type 0} where
  pub deliver_all_lem :
      (reading : A) (ns : List ℕ) (object : ℕ → Subscription A) (m : ℕ)
      → IsNodup ns
      → deliver_all reading ns object m
        ≡ (if has_number m ns then deliver reading (object m) else object m)
  unfolding deliver_all
  deliver_all_lem reading [] object m h = refl
  deliver_all_lem reading (n ∷ ns) object m (fresh, h) =
      deliver_all_lem reading ns (put_object n (deliver reading (object n)) object) m h
      ∙ ground (arith, ==_iff n m)

  -- Where no subscription is registered twice, as in a set: after `publish`, each registered
  -- subscription has been delivered the reading once, and any other is as before: a full queue at
  -- one subscriber changes nothing for the rest, in whatever order the set is gone through.
  pub publish_lem :
      (reading : A) (b : Broadcaster A) (m : ℕ)
      → IsRegistry b
      → (publish reading b).object m
        ≡ (if has_number m b.subscriptions then deliver reading (b.object m) else b.object m)
  unfolding publish
  publish_lem reading b m h = deliver_all_lem reading b.subscriptions b.object m h.nodup

  pub register-IsRegistry :
      (n : ℕ) (b : Broadcaster A) → n < b.fresh → IsRegistry b → IsRegistry (register n b)
  unfolding register
  register-IsRegistry n b below h = ground arith

  pub unregister-IsRegistry :
      (n : ℕ) (b : Broadcaster A) → IsRegistry b → IsRegistry (unregister n b)
  unfolding unregister
  unregister-IsRegistry n b h = record {
    nodup = IsNodup-without n b.subscriptions h.nodup;
    known = AllBelow-without b.fresh n b.subscriptions h.known;
  }

  pub subscribe-IsRegistry :
      (maxsize : ℕ) (b : Broadcaster A) → IsRegistry b → IsRegistry (subscribe maxsize b).1
  unfolding subscribe
  subscribe-IsRegistry maxsize b h = record {
    nodup = h.nodup;
    known = AllBelow-suc b.fresh b.subscriptions h.known;
  }

  pub object-register : (n : ℕ) (b : Broadcaster A) → (register n b).object ≡ b.object
  unfolding register
  object-register n b = ground arith
