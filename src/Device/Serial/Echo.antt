-- ===== src/Device/Serial/Echo.antt =====
-- A port for the tests: what is written comes back, and what waits to be read is dropped first.
use owon_xdm1041_server.Base.{ok, refl, ℕ, true, List, []}
use owon_xdm1041_server.Device.Serial.{Pyserial}
use owon_xdm1041_server.Device.Serial.Lawful.{IsPyserial}

-- The world is the bytes that wait to be read.
abbrev pub echo : Pyserial
echo = record {
  World = List ℕ;
  Port = Unit {0};
  construct = λ port baud_rate w. (ok tt, w);
  is_open = λ h w. true;
  close = λ h w. (ok tt, w);
  reset_input_buffer = λ h w. (ok tt, []);
  write = λ h bytes w. (ok tt, bytes);
  flush = λ h w. (ok tt, w);
  set_timeout = λ h t w. (ok tt, w);
  readline = λ h w. (ok w, []);
}

echo-IsPyserial : IsPyserial echo
echo-IsPyserial = record {
  constructed = λ port baud_rate w. refl;
  construct_raises = λ port baud_rate w. refl;
  close_returns = λ h w. refl;
  reset_raises = λ h w. refl;
  write_raises = λ h bytes w. refl;
  flush_raises = λ h w. refl;
  timeout_raises = λ h t w. refl;
  readline_raises = λ h w. refl;
}
