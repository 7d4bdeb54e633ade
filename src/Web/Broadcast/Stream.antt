-- ===== src/Web/Broadcast/Stream.antt =====
-- What one subscriber receives of what is published.
use owon_xdm1041_server.Base.{
  ◌≡◌, refl, ap, subst, ℕ, ◌<◌, ◌≤◌, ◌+◌, Option, none, some, List, [], ◌∷◌, ◌++◌, arith, length,
  length-append, Bool-cases, inl, inr,
}
use mathlib.Core.List.{append_assoc}
use owon_xdm1041_server.Web.Broadcast.{Subscription, deliver, next_reading, full}

-- The first list in order among the second.
pub data IsSubsequence {A : Type 0} : List A → List A → Type 0 where
  done : IsSubsequence [] []
  keep : {xs ys : List A} (x : A) → IsSubsequence xs ys → IsSubsequence (x ∷ xs) (x ∷ ys)
  skip : {xs ys : List A} (y : A) → IsSubsequence xs ys → IsSubsequence xs (y ∷ ys)

module _ {A : Type 0} where
  keep_last :
      {xs ys : List A} (x : A)
      → IsSubsequence xs ys
      → IsSubsequence (xs ++ (x ∷ [])) (ys ++ (x ∷ []))
  keep_last x done = keep x done
  keep_last x (keep y h) = keep y (keep_last x h)
  keep_last x (skip y h) = skip y (keep_last x h)

  skip_last : {xs ys : List A} (y : A) → IsSubsequence xs ys → IsSubsequence xs (ys ++ (y ∷ []))
  skip_last y done = skip y done
  skip_last y (keep x h) = keep x (skip_last y h)
  skip_last y (skip x h) = skip x (skip_last y h)

  length-le_of_subsequence : {xs ys : List A} → IsSubsequence xs ys → length xs ≤ length ys
  length-le_of_subsequence done = omega arith
  length-le_of_subsequence (keep x h) = omega (arith, length-le_of_subsequence h)
  length-le_of_subsequence (skip y h) = omega (arith, length-le_of_subsequence h)

  eq_of_subsequence : {xs ys : List A} → IsSubsequence xs ys → length xs ≡ length ys → xs ≡ ys
  eq_of_subsequence done e = refl
  eq_of_subsequence (keep x h) e = ap (λ l. x ∷ l) (eq_of_subsequence h (omega arith))
  eq_of_subsequence (skip y h) e = absurd (omega (arith, length-le_of_subsequence h))

-- A subscription, with what its client has received and what was published meanwhile.
pub record Client (A : Type 0) : Type 0 where
  pub subscription : Subscription A
  pub received : List A
  pub published : List A

pub data Event (A : Type 0) : Type 0 where
  publish : A → Event A
  next : Event A

module _ {A : Type 0} where
  abbrev pub take_next : Option (A × Subscription A) → Client A → Client A
  take_next none c = c
  take_next (some (x, s)) c = record c { subscription = s; received = c.received ++ (x ∷ []) }

  unfoldable pub client_step : Event A → Client A → Client A
  client_step (publish x) c = record c {
    subscription = deliver x c.subscription;
    published = c.published ++ (x ∷ []);
  }
  client_step next c = take_next (next_reading c.subscription) c

  unfoldable pub client_run : List (Event A) → Client A → Client A
  client_run [] c = c
  client_run (e ∷ es) c = client_run es (client_step e c)

  abbrev pub new_client : ℕ → Client A
  new_client maxsize = record {
    subscription = record { queue = []; maxsize = maxsize; dropped = 0 };
    received = [];
    published = [];
  }

-- The readings that have reached the client or wait for it come in the order of publication; they
-- and the dropped ones are all that were published; and the queue keeps its bound.
pub record IsFaithful {A : Type 0} (maxsize : ℕ) (c : Client A) : Type 0 where
  pub size : c.subscription.maxsize ≡ maxsize
  pub ordered : IsSubsequence (c.received ++ c.subscription.queue) c.published
  pub counted :
      length c.received + length c.subscription.queue + c.subscription.dropped ≡ length c.published
  pub bounded : 0 < maxsize → length c.subscription.queue ≤ maxsize

module _ {A : Type 0} (maxsize : ℕ) where
  pub publish-IsFaithful :
      (x : A) (c : Client A) → IsFaithful maxsize c → IsFaithful maxsize (client_step (publish x) c)
  unfolding client_step deliver
  publish-IsFaithful x c h = elim (Bool-cases (full c.subscription)) [
    | inl is_full ↦ rw is_full (record {
      size = h.size;
      ordered = skip_last x h.ordered;
      counted = omega (arith, h.counted, length-append c.published (x ∷ []));
      bounded = h.bounded;
    })
    | inr room ↦ rw room (record {
      size = h.size;
      ordered = rw (← append_assoc) (keep_last x h.ordered);
      counted = omega (
        arith,
        h.counted,
        length-append c.published (x ∷ []),
        length-append c.subscription.queue (x ∷ []),
      );
      bounded = λ positive.
          ground (arith, h.size, room, positive, length-append c.subscription.queue (x ∷ []));
    })
  ]

  next-IsFaithful :
      (queue : List A) (size dropped : ℕ) (received published : List A)
      → let c : Client A = record {
        subscription = record { queue = queue; maxsize = size; dropped = dropped };
        received = received;
        published = published;
      } in
        IsFaithful maxsize c → IsFaithful maxsize (client_step next c)
  unfolding client_step next_reading
  next-IsFaithful [] size dropped received published h = h
  next-IsFaithful (x ∷ xs) size dropped received published h = record {
    size = h.size;
    ordered = rw append_assoc h.ordered;
    counted = omega (arith, h.counted, length-append received (x ∷ []));
    bounded = λ positive. omega (arith, h.bounded positive);
  }

module _ {A : Type 0} where
  client_step-next :
      (c : Client A) (x : A) (rest : Subscription A)
      → next_reading c.subscription ≡ some (x, rest)
      → client_step next c ≡ record c { subscription = rest; received = c.received ++ (x ∷ []) }
  unfolding client_step
  client_step-next c x rest e = ap (λ o. take_next o c) e

module _ {A : Type 0} (maxsize : ℕ) where
  pub took-IsFaithful :
      (c : Client A) (x : A) (rest : Subscription A)
      → next_reading c.subscription ≡ some (x, rest)
      → IsFaithful maxsize c
      → IsFaithful maxsize (record c { subscription = rest; received = c.received ++ (x ∷ []) })
  took-IsFaithful c x rest e h = subst (IsFaithful maxsize) (client_step-next c x rest e) (
      next-IsFaithful maxsize c.subscription.queue c.subscription.maxsize c.subscription.dropped
        c.received c.published h)

  step-IsFaithful :
      (e : Event A) (c : Client A) → IsFaithful maxsize c → IsFaithful maxsize (client_step e c)
  step-IsFaithful (publish x) c h = publish-IsFaithful maxsize x c h
  step-IsFaithful next c h = next-IsFaithful maxsize _ _ _ _ _ h

  run-IsFaithful :
      (es : List (Event A)) (c : Client A)
      → IsFaithful maxsize c
      → IsFaithful maxsize (client_run es c)
  unfolding client_run
  run-IsFaithful [] c h = h
  run-IsFaithful (e ∷ es) c h = run-IsFaithful es (client_step e c) (step-IsFaithful e c h)

  -- Whatever is published and however the client keeps up: what it has received and what waits in
  -- its queue is, in order, a part of what was published; the readings dropped are exactly the rest
  -- in number; and the queue never passes its bound, where it has one.
  client_run-IsFaithful :
      (es : List (Event A)) → IsFaithful maxsize (client_run es (new_client maxsize))
  client_run-IsFaithful es = run-IsFaithful es (new_client maxsize) (record {
    size = refl;
    ordered = done;
    counted = omega arith;
    bounded = λ positive. omega arith;
  })

  -- Where nothing was dropped, the client has received or has waiting just what was published, in
  -- order.
  client_run-lossless :
      (es : List (Event A))
      → (client_run es (new_client maxsize)).subscription.dropped ≡ 0
      → let c = client_run es (new_client maxsize) in
        c.received ++ c.subscription.queue ≡ c.published
  client_run-lossless es none_lost =
      let h = client_run-IsFaithful es in
      let c = client_run es (new_client maxsize) in
      eq_of_subsequence h.ordered
        (omega (arith, h.counted, length-append c.received c.subscription.queue))
