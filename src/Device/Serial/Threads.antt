-- ===== src/Device/Serial/Threads.antt =====
-- src/owon_xdm1041_server/device/transport.py: `_transact_blocking`, from one call of the port to
-- the next. It runs in a thread of its own, which goes on where the task that waits for it is
-- cancelled.
pub mod Whole
pub mod Overlap
use owon_xdm1041_server.Base.{
  ℕ, zero, suc, Bool, true, false, Option, none, some, List, [], ◌∷◌, ◌++◌, Result, ok, err, Error,
  serial_error, transport_error, unicode_error, if◌then◌else◌, Text, strip, encode_ascii,
  decode_ascii,
}
use owon_xdm1041_server.Device.Serial.{Pyserial}

-- The arguments of the method.
pub record Request : Type 0 where
  pub command : Text
  pub expect_response : Bool
  pub timeout : ℕ

-- Before each call of the port, and at the end with what the method returns or raises.
pub data At : Type 0 where
  resetting writing flushing timing reading : At
  finished : Result (Option Text) → At

-- `except (serial.SerialException, OSError)`, and any other exception.
abbrev pub raised : Error → At
raised serial_error = finished (err transport_error)
raised e = finished (err e)

abbrev pub then_at : {A : Type 0} → At → Result A → At
then_at next (ok a) = next
then_at next (err e) = raised e

abbrev pub read_line : Result (List ℕ) → At
read_line (ok []) = finished (err transport_error)
read_line (ok (b ∷ raw)) = finished (ok (some (strip (decode_ascii (b ∷ raw)))))
read_line (err e) = raised e

module _ (P : Pyserial) (port : P.Port) where
  abbrev pub write_bytes : Option (List ℕ) → P.World → At × P.World
  write_bytes none w = (raised unicode_error, w)
  write_bytes (some bytes) w = let r = P.write port bytes w in (then_at flushing r.0, r.1)

  unfoldable pub step : Request → At × P.World → At × P.World
  step q (resetting, w) = let r = P.reset_input_buffer port w in (then_at writing r.0, r.1)
  step q (writing, w) = write_bytes (encode_ascii (q.command ++ (10 ∷ []))) w
  step q (flushing, w) =
      let r = P.flush port w in
      (then_at (if q.expect_response then timing else finished (ok none)) r.0, r.1)
  step q (timing, w) = let r = P.set_timeout port q.timeout w in (then_at reading r.0, r.1)
  step q (reading, w) = let r = P.readline port w in (read_line r.0, r.1)
  step q (finished a, w) = (finished a, w)

  unfoldable pub run : Request → ℕ → At × P.World → At × P.World
  run q zero at = at
  run q (suc n) at = run q n (step q at)
