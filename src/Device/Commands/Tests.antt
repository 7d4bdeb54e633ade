-- ===== src/Device/Commands/Tests.antt =====
-- Runs of the parsers.
use owon_xdm1041_server.Base.{◌≡◌, refl, ok, err, value_error, codes}
use owon_xdm1041_server.Device.Commands.{volt_ac, medium, function_from_device, rate_from_device}

quoted_function : function_from_device (codes " \"volt  ac\"\n") ≡ ok volt_ac
unfolding function_from_device
quoted_function = refl

unknown_function : function_from_device (codes "VOLTAC") ≡ err value_error
unfolding function_from_device
unknown_function = refl

rate_in_lower_case : rate_from_device (codes "m") ≡ ok medium
unfolding rate_from_device
rate_in_lower_case = refl
