-- ===== src/Tests/Launches.antt =====
-- The launcher at concrete inputs.
use open_ocpp_simu.Common.{◌≡◌, true, false, some, [], ◌∷◌, codes}
use open_ocpp_simu.Float.{Hundredths}
use open_ocpp_simu.Launcher.{Params, Entry, Launcher, start_charge_points}
use open_ocpp_simu.Launcher.Tracking.{all_can_start, start_charge_points_lem}

abbrev pub params : Params Hundredths
params = record {
  id = codes "cp1";
  kind = codes "AC";
  vendor = codes "v";
  model = codes "m";
  serial = codes "1";
  central_system = codes "ws://cs";
  nb_connectors = 1;
  nb_phases = 3;
  max_setpoint = 32;
  max_current_per_connector = 16;
  voltage = some 23000;
}

abbrev pub entry : Entry Hundredths
entry = record { id = some (codes "cp1"); params = some params }

-- A charge point that is dead.
abbrev pub launcher : Launcher Hundredths
launcher = record {
  broker_url = codes "tcp://broker";
  ended = false;
  cp_status = (codes "cp1", false) ∷ [];
  cp_pids = (codes "cp1", 7) ∷ [];
  effects = [];
}

start_charge_points_lem_example :
    ((start_charge_points true (entry ∷ []) launcher).0
      ≡ all_can_start launcher.cp_status (entry ∷ []))
    × ((start_charge_points true (entry ∷ []) launcher).1.cp_status ≡ launcher.cp_status)
start_charge_points_lem_example = start_charge_points_lem true (entry ∷ []) launcher
