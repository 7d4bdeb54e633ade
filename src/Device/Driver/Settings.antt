-- ===== src/Device/Driver/Settings.antt =====
-- The driver's settings over the mock: what is set is what is read back.
use owon_xdm1041_server.Base.{
  ◌≡◌, refl, ℕ, true, none, ok, Text, codes, is_space, strip, rstrip, text_eq, upper, starts_with,
  has_text, split, ◌∷◌, ◌++◌, if◌then◌else◌,
}
use owon_xdm1041_server.Base.StringLaws.{strip_onto}
use owon_xdm1041_server.Base.Floats.{Floats}
use owon_xdm1041_server.Device.Commands
use owon_xdm1041_server.Device.Commands.{
  Function, Rate, slow, temperature, configure_command, conf_command, set_rate_command,
  rate_from_device,
}
use owon_xdm1041_server.Device.Mock.{MockTransport, handle, configure, store_rate, mock_transport}
use owon_xdm1041_server.Device.Driver.{set_function, set_rate, enable_auto_range}
use owon_xdm1041_server.Device.Driver.Exchange.{IsReady, write-handle}

-- The meter after a CONF command as the mock reads it: AUTO anywhere in it turns auto-range on.
unfoldable pub configured : Function → Text → MockTransport → MockTransport
configured f command s = record s {
  function = f;
  auto_range = if has_text (codes "AUTO") (upper command) then true else s.auto_range;
}

module _ (F : Floats) where
  handle-temperature :
      (t : Text) (s : MockTransport)
      → handle F (codes "CONF:TEMP:RTD" ++ t) s
        ≡ (ok none, configured temperature (codes "CONF:TEMP:RTD" ++ t) s)
  unfolding handle configured configure upper text_eq starts_with
  handle-temperature t s = refl

  strip-temperature :
      (rtd_type : Text)
      → strip (configure_command temperature rtd_type)
        ≡ codes "CONF:TEMP:RTD" ++ rstrip (32 ∷ rtd_type)
  unfolding configure_command conf_command is_space
  strip-temperature rtd_type = strip_onto 67 (codes "ONF:TEMP:RT") 68 (32 ∷ rtd_type) refl refl

  handle-configure_temperature :
      (rtd_type : Text) (s : MockTransport)
      → handle F (strip (configure_command temperature rtd_type)) s
        ≡ (ok none, configured temperature (strip (configure_command temperature rtd_type)) s)
  handle-configure_temperature rtd_type s =
      rw (strip-temperature rtd_type) (handle-temperature (rstrip (32 ∷ rtd_type)) s)

  handle-configure_command :
      (f : Function) (rtd_type : Text) (s : MockTransport)
      → handle F (strip (configure_command f rtd_type)) s
        ≡ (ok none, configured f (strip (configure_command f rtd_type)) s)
  unfolding configured handle configure upper text_eq starts_with configure_command strip
      conf_command has_text
  handle-configure_command temperature rtd_type s = handle-configure_temperature rtd_type s
  handle-configure_command _ rtd_type s = refl

  handle-set_rate_command :
      (r : Rate) (s : MockTransport)
      → handle F (strip (set_rate_command r)) s ≡ (ok none, record s { rate = r })
  unfolding handle upper text_eq starts_with strip set_rate_command store_rate split
      rate_from_device
  handle-set_rate_command slow s = refl
  handle-set_rate_command _ s = refl

  handle-auto_range :
      (s : MockTransport)
      → handle F (strip Commands.auto_range) s ≡ (ok none, record s { auto_range = true })
  unfolding handle upper text_eq starts_with strip
  handle-auto_range s = refl

module _ (F : Floats) (default_timeout : ℕ) where
  -- On an open mock with no failure due, `set_function` switches the meter to the given function,
  -- for any RTD type, and changes nothing else, but that a command which holds AUTO, in any letter
  -- case, turns auto-range on.
  pub set_function-mock :
      (f : Function) (rtd_type : Text) (s : MockTransport)
      → IsReady s
      → set_function (mock_transport F) default_timeout f rtd_type s
        ≡ (ok tt, configured f (strip (configure_command f rtd_type)) s)
  unfolding set_function
  set_function-mock f rtd_type s ready =
      write-handle F default_timeout (configure_command f rtd_type) s none _ ready
        (handle-configure_command F f rtd_type s)

  -- On an open mock with no failure due, `set_rate` sets the rate and `enable_auto_range` turns
  -- auto-range on, and neither changes anything else.
  pub set_rate-mock :
      (r : Rate) (s : MockTransport)
      → IsReady s
      → (set_rate (mock_transport F) default_timeout r s ≡ (ok tt, record s { rate = r }))
        × (enable_auto_range (mock_transport F) default_timeout s
            ≡ (ok tt, record s { auto_range = true }))
  unfolding set_rate enable_auto_range
  set_rate-mock r s ready = (
    write-handle F default_timeout (set_rate_command r) s none _ ready
        (handle-set_rate_command F r s),
    write-handle F default_timeout Commands.auto_range s none _ ready (handle-auto_range F s),
  )
