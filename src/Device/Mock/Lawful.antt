-- ===== src/Device/Mock/Lawful.antt =====
-- The mock keeps the promises of `Transport`.
use owon_xdm1041_server.Base.{
  ◌≡◌, ◌≢◌, refl, ℕ, Bool, true, false, none, arith, Result, ok, err, Text, strip, upper, text_eq,
  List, [], ◌∷◌, split,
}
use owon_xdm1041_server.Base.Floats.{Floats}
use owon_xdm1041_server.Device.Commands.{rate_from_device, find_member, rate_value, rates, Rate}
use owon_xdm1041_server.Device.Mock.{
  MockTransport, second_word, stored_rate, store_rate, handle, transact, mock_transport,
}
use owon_xdm1041_server.Device.Transport.{IsTransport, managers_error, only_transport_error}
use owon_xdm1041_server.Device.Commands

find_member_raises :
    {A : Type 0} (value : A → Text) (token : Text) (ms : List A)
    → managers_error (find_member value token ms) ≡ false
unfolding find_member
find_member_raises value token [] = refl
find_member_raises value token (m ∷ ms) = ground (arith, find_member_raises value token ms)

second_word_raises : (ws : List Text) → managers_error (second_word ws) ≡ false
second_word_raises (v ∷ w ∷ ws) = refl
second_word_raises _ = refl

rate_from_device_raises : (w : Text) → managers_error (rate_from_device w) ≡ false
unfolding rate_from_device
rate_from_device_raises w = find_member_raises rate_value (upper (Commands.unquote w)) rates

stored_rate_raises :
    (w : Result Text) (s : MockTransport)
    → managers_error w ≡ false
    → managers_error (stored_rate w s).0 ≡ false
stored_rate_raises (ok w) s h = ground (arith, rate_from_device_raises w)
stored_rate_raises (err e) s h = ground arith

store_rate_raises : (c : Text) (s : MockTransport) → managers_error (store_rate c s).0 ≡ false
unfolding store_rate
store_rate_raises c s = stored_rate_raises (second_word (split c)) s (second_word_raises (split c))

module _ (F : Floats) where
  handle_raises : (c : Text) (s : MockTransport) → managers_error (handle F c s).0 ≡ false
  unfolding handle
  handle_raises c s = ground (arith, store_rate_raises c s)

  transact_raises :
      (c : Text) (x : Bool) (t : ℕ) (s : MockTransport)
      → managers_error (transact F c x t s).0 ≡ false
  unfolding transact
  transact_raises c x t s = ground (arith, handle_raises (strip c) s)

  answers : (c : Text) (t : ℕ) (s : MockTransport) → (transact F c true t s).0 ≢ ok none
  unfolding transact
  answers c t s = ground arith

  pub handle-local :
      (s : MockTransport)
      → handle F (strip Commands.local) s ≡ (ok none, record s { remote = false })
  unfolding handle strip upper text_eq
  handle-local s = refl

  local_raises :
      (t : ℕ) (s : MockTransport)
      → only_transport_error (transact F Commands.local false t s).0 ≡ true
  unfolding transact
  local_raises t s = ground (arith, handle-local s)

  -- The mock keeps every promise of `Transport`: it is open after `open` and closed after `close`,
  -- a query that returns has an answer, it opens and closes with no exception but `TransportError`,
  -- and no transaction raises an exception of the manager's own.
  pub mock_transport-IsTransport : IsTransport (mock_transport F)
  mock_transport-IsTransport = record {
    opens = λ s h. refl;
    closes = λ s. refl;
    answers = answers;
    open_raises = λ s. refl;
    close_raises = λ s. refl;
    local_raises = local_raises;
    transact_raises = transact_raises;
  }
