-- ===== src/Screenshots/Waiting.antt =====
-- The wait for the server ends.
use Prim.Native.Nat.{◌/◌}
use owon_xdm1041_server.Base.{
  ◌≡◌, ◌⊎◌, inl, inr, refl, ℕ, zero, suc, ◌+◌, ◌*◌, ◌≤◌, ◌<◌, Bool, true, false, Option, some,
  Result, ok, err, url_error, runtime_error, Text, arith,
}
use owon_xdm1041_server.Screenshots.{Network, round, answered, wait_until, wait_for_server}

-- What Python documents: the clock does not go back, a sleep lasts as long as it was told to, and
-- `urlopen` returns a status or raises `URLError` or `OSError`.
pub record IsNetwork {W : Type 0} (N : Network W) : Type 0 where
  pub steady : (url : Text) (t : ℕ) (w : W) → N.monotonic w ≤ N.monotonic (N.urlopen url t w).1
  pub slept : (t : ℕ) (w : W) → N.monotonic w + t ≤ N.monotonic (N.sleep t w)
  pub opened :
      (url : Text) (t : ℕ) (w : W)
      → ((status : ℕ) × ((N.urlopen url t w).0 ≡ ok status))
        ⊎ ((N.urlopen url t w).0 ≡ err url_error)

module _ {W : Type 0} (N : Network W) (L : IsNetwork N) (base_url : Text) where
  -- The end of the loop: the last request was answered with 200, or the deadline has passed.
  abbrev pub Ended : ℕ → Result (Option (Unit {0})) × W → Type 0
  Ended deadline e =
      ((e.0 ≡ ok (some tt)) × (w : W) × (N.urlopen base_url 1000 w ≡ (ok 200, e.1)))
      ⊎ ((e.0 ≡ err runtime_error) × (deadline ≤ N.monotonic e.1))

  -- A round is answered with 200, or it lasts 250 milliseconds at least.
  round_cases :
      (w : W)
      → ((status : ℕ) → (N.urlopen base_url 1000 w).0 ≡ ok status → status ≡ 200)
      → ((round N base_url w ≡ (ok true, (N.urlopen base_url 1000 w).1))
          × (N.urlopen base_url 1000 w ≡ (ok 200, (N.urlopen base_url 1000 w).1)))
        ⊎ ((w' : W) × (round N base_url w ≡ (ok false, w'))
            × (N.monotonic w + 250 ≤ N.monotonic w'))
  round_cases w only = elim (L.opened base_url 1000 w) [
    | inl (status, o) ↦ let two_hundred = only status o in inl (ground arith, ground arith)
    | inr o ↦ inr (
      N.sleep 250 (N.urlopen base_url 1000 w).1,
      ground arith,
      omega (arith, L.steady base_url 1000 w, L.slept 250 (N.urlopen base_url 1000 w).1),
    )
  ]

  expired :
      (rounds deadline : ℕ) (w : W)
      → deadline ≤ N.monotonic w
      → wait_until N (suc rounds) deadline base_url w ≡ (err runtime_error, w)
  unfolding wait_until
  expired rounds deadline w late = ground arith

  -- A round before the deadline, by whether it was answered.
  waited :
      (rounds deadline : ℕ) (w w' : W) (b : Bool)
      → N.monotonic w < deadline
      → round N base_url w ≡ (ok b, w')
      → wait_until N (suc rounds) deadline base_url w
        ≡ answered N (wait_until N rounds deadline base_url) b w'
  unfolding wait_until
  waited rounds deadline w w' b early h = ground (arith, h)

  le_or_lt : (a b : ℕ) → (a ≤ b) ⊎ (b < a)
  le_or_lt a b = omega arith

  wait_until-Ended :
      (rounds deadline : ℕ) (w : W)
      → ((v : W) (status : ℕ) → (N.urlopen base_url 1000 v).0 ≡ ok status → status ≡ 200)
      → deadline ≤ N.monotonic w + 250 * rounds
      → Ended deadline (wait_until N (suc rounds) deadline base_url w)
  wait_until-Ended zero deadline w only enough =
      let late : deadline ≤ N.monotonic w = omega arith in
      rw (expired 0 deadline w late) (inr (refl, late))
  wait_until-Ended (suc rounds) deadline w only enough = elim (le_or_lt deadline (N.monotonic w)) [
    | inl late ↦ rw (expired (suc rounds) deadline w late) (inr (refl, late))
    | inr early ↦ elim (round_cases w (only w)) [
      | inl (h, o) ↦ rw (waited (suc rounds) deadline w _ true early h) (inl (refl, w, o))
      | inr (w', h, later) ↦
          rw (waited (suc rounds) deadline w w' false early h)
            (wait_until-Ended rounds deadline w' only (omega arith))
    ]
  ]

  -- Over a clock and a network that keep their documentation, where the address answers with no
  -- status but 200: the wait for the server ends within a round for each quarter of a second of its
  -- timeout and two more; it returns right after an answer with the status 200, or raises an error
  -- at the deadline or later.
  pub wait_for_server-Ended :
      (timeout : ℕ) (w : W)
      → ((v : W) (status : ℕ) → (N.urlopen base_url 1000 v).0 ≡ ok status → status ≡ 200)
      → Ended (N.monotonic w + timeout) (wait_for_server N base_url timeout w)
  unfolding wait_for_server
  wait_for_server-Ended timeout w only =
      wait_until-Ended (suc (timeout / 250)) (N.monotonic w + timeout) w only (omega arith)
