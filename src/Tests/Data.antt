-- ===== src/Tests/Data.antt =====
-- The data of the examples.
use open_ocpp_simu.Common.{true, false, none, some, [], ◌∷◌, Text, codes}
use open_ocpp_simu.Ocpp.{
  ChargePointStatus, available, charging, RegistrationStatus, AuthorizationStatus, Stack,
}
use open_ocpp_simu.Connector.{ConnectorData, ac}
use open_ocpp_simu.Float.{Hundredths}
use open_ocpp_simu.Meter.{Meter}
use open_ocpp_simu.Mqtt.{Mqtt}
use open_ocpp_simu.Handler.{Handler}
use open_ocpp_simu.Sim.World.{World, Connector}

abbrev pub tag : Text
tag = codes "A1"

-- 230 V, 10 A and 2300 W
abbrev pub meter : Meter Hundredths
meter = record {
  phases_count = 1;
  voltages = some 23000 ∷ [];
  consumptions = some 1000 ∷ [];
  powers = some 0 ∷ [];
  energy = 0;
  power_factor = none;
  current_out_type = ac;
}

abbrev pub with_meter : {M : Type 0} → M → ChargePointStatus → Text → ConnectorData Hundredths M
with_meter m status id_tag = record {
  id = 1;
  status = status;
  id_tag = id_tag;
  parent_id_tag = [];
  max_setpoint = some 3200;
  ocpp_setpoint = some 3200;
  setpoint = some 1600;
  car_consumption_l1 = some 1000;
  car_consumption_l2 = some 0;
  car_consumption_l3 = some 0;
  car_cable_capacity = some 1600;
  car_ready = true;
  preparing_start = 0;
  fault_pending = false;
  unavailable_pending = false;
  meter = m;
}

abbrev pub connector : ChargePointStatus → Connector Hundredths
connector status = with_meter meter status tag

-- Everything is accepted, and the charge point has 20 A.
abbrev pub stack : Stack Hundredths
stack = record {
  registration_status = λ calls. RegistrationStatus.accepted;
  connector_status = λ calls id. charging;
  authorizes = λ calls id t parent. (AuthorizationStatus.accepted, []);
  starts = λ calls id t. AuthorizationStatus.accepted;
  setpoints = λ calls id cp con unit. (true, some (some 2000), none);
  now = λ calls. 0;
  authorize_remote_tx_requests = true;
  connection_time_out = 60000;
}

abbrev pub mqtt : Mqtt Hundredths
mqtt = record { ended = false; connectors = with_meter tt available tag ∷ [] }

abbrev pub handler : Handler
handler = record {
  remote_start_pending = false ∷ [];
  remote_stop_pending = false ∷ [];
  remote_start_id_tags = [] ∷ [];
  connected = true;
  reset_pending = false;
}

-- An id tag is pending for the connector.
abbrev pub world : World Hundredths
world = record { calls = []; mqtt = mqtt; handler = handler }
