-- ===== src/Device/Serial/Numbered.antt =====
-- A pyserial for the tests whose ports are numbers, and at whose ports nothing answers.
use owon_xdm1041_server.Base.{
  ℕ, suc, Bool, true, false, ◌==◌, if◌then◌else◌, arith, none, ok, [], codes,
}
use owon_xdm1041_server.Device.Serial.{Pyserial, SerialTransport}
use owon_xdm1041_server.Device.Serial.Ports.{OpensPorts}

-- How many ports were constructed, and which of them are open.
pub record Desk : Type 0 where
  pub count : ℕ
  pub opened : ℕ → Bool

abbrev pub numbered : Pyserial
numbered = record {
  World = Desk;
  Port = ℕ;
  construct = λ port baud_rate w. (
    ok w.count,
    record { count = suc w.count; opened = λ j. if w.count == j then true else w.opened j },
  );
  is_open = λ h w. w.opened h;
  close = λ h w. (ok tt, record w { opened = λ j. if h == j then false else w.opened j });
  reset_input_buffer = λ h w. (ok tt, w);
  write = λ h bytes w. (ok tt, w);
  flush = λ h w. (ok tt, w);
  set_timeout = λ h t w. (ok tt, w);
  readline = λ h w. (ok [], w);
}

pub numbered-OpensPorts : OpensPorts numbered
numbered-OpensPorts = record {
  constructs_one = λ port baud_rate h w e other. ground arith;
  closes_port = λ h w. ground arith;
  close_opens = λ p h w e. ground arith;
  reset_opens = λ p h w e. e;
  write_opens = λ p bytes h w e. e;
  flush_opens = λ p h w e. e;
  timeout_opens = λ p t h w e. e;
  readline_opens = λ p h w e. e;
}

abbrev pub fresh : SerialTransport numbered
fresh = record {
  port = codes "/dev/ttyUSB0";
  baud_rate = 115200;
  serial = none;
  world = record { count = 0; opened = λ h. false };
}
