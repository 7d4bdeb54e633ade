-- ===== src/Device/Serial/Raises.antt =====
-- Which exceptions an action over the serial port can raise.
use owon_xdm1041_server.Base.{
  ◌≡◌, Bool, true, false, arith, Action, Error, Result, resume, recover, raise, ◌>>=◌, ok, err,
  serial_error, unicode_error, transport_error,
}
use owon_xdm1041_server.Device.Serial.{on_serial_error}
use owon_xdm1041_server.Device.Transport.{managers_error, only_transport_error}

-- The exception of the result, if there is one, passes the test.
abbrev pub within : {A : Type 0} → (Error → Bool) → Result A → Bool
within test (ok a) = true
within test (err e) = test e

abbrev pub Within : {S A : Type 0} → (Error → Bool) → Action S A → Type 0
Within {S} test m = (s : S) → within test (m s).0 ≡ true

pub bind-Within :
    {S A B : Type 0} (test : Error → Bool) (m : Action S A) (f : A → Action S B)
    → Within test m
    → ((a : A) → Within test (f a))
    → Within test (m >>= f)
bind-Within {A} test m f hm hf s = resumed (m s).0 (hm s)
  where
    resumed : (r : Result A) → within test r ≡ true → within test (resume f r (m s).1).0 ≡ true
    resumed (ok a) h = hf a (m s).1
    resumed (err e) h = h

abbrev pub is_serial : Error → Bool
is_serial serial_error = true
is_serial e = false

abbrev pub is_serial_or_unicode : Error → Bool
is_serial_or_unicode serial_error = true
is_serial_or_unicode unicode_error = true
is_serial_or_unicode e = false

abbrev pub is_transport : Error → Bool
is_transport transport_error = true
is_transport e = false

abbrev pub is_transport_or_unicode : Error → Bool
is_transport_or_unicode transport_error = true
is_transport_or_unicode unicode_error = true
is_transport_or_unicode e = false

pub only_transport :
    {A : Type 0} (r : Result A) → within is_transport r ≡ true → only_transport_error r ≡ true
only_transport r h = ground arith

pub no_managers :
    {A : Type 0} (r : Result A) → within is_transport_or_unicode r ≡ true → managers_error r ≡ false
no_managers r h = ground arith

-- What the `except` clause makes of the failures in the `try` block.
pub tried_any :
    {S A : Type 0} (r : Result A) (s : S)
    → within is_serial_or_unicode r ≡ true
    → within is_transport_or_unicode (recover (on_serial_error (raise transport_error)) r s).0
      ≡ true
tried_any r s h = ground arith

pub tried_serial :
    {S A : Type 0} (r : Result A) (s : S)
    → within is_serial r ≡ true
    → within is_transport (recover (on_serial_error (raise transport_error)) r s).0 ≡ true
tried_serial r s h = ground arith
