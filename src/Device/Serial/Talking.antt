-- ===== src/Device/Serial/Talking.antt =====
-- A port for the tests: the meter replies to each line that is written, and its replies wait in
-- order.
use owon_xdm1041_server.Base.{ok, refl, true, Result, List, [], ◌∷◌, ◌++◌, ℕ}
use owon_xdm1041_server.Device.Serial.{Pyserial}
use owon_xdm1041_server.Device.Serial.Responsive.{StaysOpen}
use owon_xdm1041_server.Device.Serial.Threads.Overlap.{IsResponsive}

abbrev next_line : List (List ℕ) → Result (List ℕ) × List (List ℕ)
next_line [] = (ok [], [])
next_line (line ∷ rest) = (ok line, rest)

-- The world is the replies that wait to be read.
abbrev pub talking : (List ℕ → List ℕ) → Pyserial
talking reply = record {
  World = List (List ℕ);
  Port = Unit {0};
  construct = λ port baud_rate w. (ok tt, w);
  is_open = λ h w. true;
  close = λ h w. (ok tt, w);
  reset_input_buffer = λ h w. (ok tt, []);
  write = λ h bytes w. (ok tt, w ++ (reply bytes ∷ []));
  flush = λ h w. (ok tt, w);
  set_timeout = λ h t w. (ok tt, w);
  readline = λ h w. next_line w;
}

abbrev pub talking-IsResponsive : (reply : List ℕ → List ℕ) → IsResponsive (talking reply) tt
talking-IsResponsive reply = record {
  reply = reply;
  pending = λ w. w;
  reset_lem = λ w. (refl, refl);
  written = λ bytes w. refl;
  replied = λ bytes w asks. refl;
  flush_lem = λ w. (refl, refl);
  timeout_lem = λ t w. (refl, refl);
  readline_some = λ line rest w e. rw e (refl, refl);
  readline_none = λ w e. rw e (refl, refl);
}

pub talking-StaysOpen : (reply : List ℕ → List ℕ) → StaysOpen (talking reply) tt
talking-StaysOpen reply = record {
  reset_open = λ w o. refl;
  write_open = λ bytes w o. refl;
  flush_open = λ w o. refl;
  timeout_open = λ t w o. refl;
  readline_open = λ w o. refl;
}
