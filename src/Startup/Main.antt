-- ===== src/Startup/Main.antt =====
-- The charge point's `main`, up to the simulated charge point that it starts.
use open_ocpp_simu.Common.{List, Text}
use open_ocpp_simu.Connector.{ConnectorType}
use open_ocpp_simu.Config.Requests.{IniFile}
use open_ocpp_simu.Launcher
use open_ocpp_simu.Startup.Arguments.{
  Params, Parsed, out_of_fuel, null_read, usage, parsed, parse_args,
}
use open_ocpp_simu.Startup.Settings.{settings, update_config}

-- The program returns 1, or it reads the null pointer, or it starts the simulated charge point.
pub data Started (S : Type 0) : Type 0 where
  returns_1 reads_null : Started S
  starts : S → Params → ConnectorType → Started S

module _ {S : Type 0} (ini : IniFile S) (type_of : Text → ConnectorType) where
  -- `config.ini` in the working directory holds `s`. The loop on the arguments never runs out of fuel.
  abbrev pub start_with : Parsed → S → Started S
  start_with out_of_fuel s = returns_1
  start_with null_read s = reads_null
  start_with (usage param) s = returns_1
  start_with (parsed p) s =
      let type = type_of p.chargepoint_type in starts (update_config ini (settings type p) s) p type

  unfoldable pub charge_point_main : List Text → S → Started S
  charge_point_main args s = start_with (parse_args args) s
