-- ===== src/Web/Broadcast.antt =====
-- src/owon_xdm1041_server/web/broadcast.py: the fan-out of readings to bounded queues. The objects
-- stand in a store under a number for each, so that a client and the broadcaster share one.
pub mod Fanout
pub mod Stream
pub mod Delivery
pub mod Listening
pub mod NumberSet
pub mod Unordered
mod Tests
use owon_xdm1041_server.Base.{
  ℕ, suc, ◌+◌, Bool, true, false, ◌&&◌, ◌||◌, Option, none, some, List, [], ◌∷◌, ◌++◌, leb, ltb,
  ◌==◌, length, if◌then◌else◌,
}

-- `Subscription`, oldest reading first. A size of 0 means no bound, as `asyncio.Queue` has it.
pub record Subscription (A : Type 0) : Type 0 where
  pub queue : List A
  pub maxsize : ℕ
  pub dropped : ℕ

-- All subscriptions by number, the numbers that `_subscriptions` holds, and the next number.
pub record Broadcaster (A : Type 0) : Type 0 where
  pub object : ℕ → Subscription A
  pub subscriptions : List ℕ
  pub fresh : ℕ

abbrev pub has_number : ℕ → List ℕ → Bool
has_number n [] = false
has_number n (m ∷ ms) = m == n || has_number n ms

abbrev pub without_number : ℕ → List ℕ → List ℕ
without_number n [] = []
without_number n (m ∷ ms) = let rest = without_number n ms in if m == n then rest else m ∷ rest

module _ {A : Type 0} where
  -- `queue.full()`
  abbrev pub full : Subscription A → Bool
  full s = ltb 0 s.maxsize && leb s.maxsize (length s.queue)

  -- `_deliver`
  unfoldable pub deliver : A → Subscription A → Subscription A
  deliver reading s =
      if full s
      then record s { dropped = s.dropped + 1 }
      else record s { queue = s.queue ++ (reading ∷ []) }

  -- `__anext__`: a reading and the queue without it, or a wait.
  unfoldable pub next_reading : Subscription A → Option (A × Subscription A)
  next_reading s = elim s.queue [ [] ↦ none | x ∷ xs ↦ some (x, record s { queue = xs }) ]

  -- The object of a number, replaced.
  abbrev pub put_object : ℕ → Subscription A → (ℕ → Subscription A) → ℕ → Subscription A
  put_object n s object m = if n == m then s else object m

  -- `subscriber_count`
  unfoldable pub subscriber_count : Broadcaster A → ℕ
  subscriber_count b = length b.subscriptions

  -- `subscribe`: a new object, which is not yet registered, and its number.
  unfoldable pub subscribe : ℕ → Broadcaster A → ℕ × Broadcaster A
  subscribe maxsize b =
      let new : Subscription A = record { queue = []; maxsize = maxsize; dropped = 0 } in
      (b.fresh, record b { object = put_object b.fresh new b.object; fresh = suc b.fresh })

  -- `_register`: `set.add`
  unfoldable pub register : ℕ → Broadcaster A → Broadcaster A
  register n b =
      if has_number n b.subscriptions then b else record b { subscriptions = n ∷ b.subscriptions }

  -- `_unregister`: `set.discard`
  unfoldable pub unregister : ℕ → Broadcaster A → Broadcaster A
  unregister n b = record b { subscriptions = without_number n b.subscriptions }

  -- `__aenter__` and `__aexit__` of a subscription, for `async with`.
  abbrev pub enter_subscription : ℕ → Broadcaster A → ℕ × Broadcaster A
  enter_subscription n b = (n, register n b)

  abbrev pub exit_subscription : ℕ → Broadcaster A → Broadcaster A
  exit_subscription n b = unregister n b

  -- The loop of `publish`.
  unfoldable pub deliver_all : A → List ℕ → (ℕ → Subscription A) → ℕ → Subscription A
  deliver_all reading [] object = object
  deliver_all reading (n ∷ ns) object =
      deliver_all reading ns (put_object n (deliver reading (object n)) object)

  unfoldable pub publish : A → Broadcaster A → Broadcaster A
  publish reading b = record b { object = deliver_all reading b.subscriptions b.object }
