-- ===== src/Web/Broadcast/Tests.antt =====
-- The theorems about all subscriptions at once: a queue with one place, which drops the second
-- reading, and a set in two orders.
use owon_xdm1041_server.Base.{◌≡◌, refl, ℕ, List, [], ◌∷◌, arith}
use owon_xdm1041_server.Web.Broadcast.{
  subscribe, register, publish, deliver, deliver_all, next_reading, Subscription, Broadcaster,
  subscriber_count,
}
use owon_xdm1041_server.Web.Broadcast.Delivery.{
  Fanned, new_fanned, subscribed, spread, took, subscribes, registers, publishes, takes, Reach,
  here, next, client_of, Reach-IsFaithful,
}
use owon_xdm1041_server.Web.Broadcast.Stream.{IsFaithful}
use owon_xdm1041_server.Web.Broadcast.Fanout.{IsNodup}
use owon_xdm1041_server.Web.Broadcast.Unordered.{
  Operation, operate_all, view, IsSame-view, operate_all-unordered,
}
use owon_xdm1041_server.Web.Broadcast.Unordered

abbrev listening : Fanned ℕ
unfolding subscribe register
listening = record (subscribed 1 new_fanned) {
  broadcaster = register 0 (subscribed 1 new_fanned).broadcaster;
}

abbrev emptied : Subscription ℕ
emptied = record { queue = []; maxsize = 1; dropped = 1 }

abbrev behind : Fanned ℕ
unfolding subscribe register listening
behind = took 0 7 emptied (spread 8 (spread 7 listening))

behind-Reach : Reach behind
unfolding subscribe register publish deliver_all deliver next_reading listening behind
behind-Reach =
    next
      (next (next (next (next here (subscribes 1)) (registers 0 (omega arith))) (publishes 7))
        (publishes 8))
      (takes 0 7 emptied refl)

Reach-IsFaithful_example : IsFaithful (behind.broadcaster.object 0).maxsize (client_of behind 0)
Reach-IsFaithful_example = Reach-IsFaithful behind 0 behind-Reach

-- Two subscriptions, in one order and in the other.
abbrev ordered : List ℕ → Broadcaster ℕ
ordered numbers = record {
  object = λ n. record { queue = []; maxsize = 1; dropped = 0 };
  subscriptions = numbers;
  fresh = 2;
}

first_second : IsNodup (0 ∷ 1 ∷ [])
first_second = (refl, (refl, tt))

second_first : IsNodup (1 ∷ 0 ∷ [])
second_first = (refl, (refl, tt))

same_view : view (ordered (0 ∷ 1 ∷ [])) first_second ≡ view (ordered (1 ∷ 0 ∷ [])) second_first
same_view =
    IsSame-view (ordered (0 ∷ 1 ∷ [])) (ordered (1 ∷ 0 ∷ [])) first_second second_first
      (record { object = refl; fresh = refl; numbers = λ n. ground arith })

abbrev operations : List (Operation ℕ)
operations =
    Unordered.publishes 7 ∷ Unordered.publishes 8 ∷ Unordered.takes 1 ∷ Unordered.unregisters 0 ∷ []

operate_all-unordered_example :
    let b = operate_all operations (ordered (0 ∷ 1 ∷ [])) in
    let c = operate_all operations (ordered (1 ∷ 0 ∷ [])) in
    (h : IsNodup b.subscriptions) × (k : IsNodup c.subscriptions) × (view b h ≡ view c k)
    × ((n : ℕ) → b.object n ≡ c.object n)
    × (subscriber_count b ≡ subscriber_count c)
operate_all-unordered_example =
    operate_all-unordered operations (ordered (0 ∷ 1 ∷ [])) (ordered (1 ∷ 0 ∷ [])) first_second
      second_first same_view
