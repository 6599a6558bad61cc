-- ===== src/Connector.antt =====
-- src/chargepoint/ConnectorData.h: the data of a connector. `F` is `float`. `M` is what the pointer
-- `meter` leads to: a meter in the control loop, nothing in the MQTT manager, which never sets it.
use open_ocpp_simu.Common.{ℕ, Bool, true, false, [], Text}
use open_ocpp_simu.Ocpp.{ChargePointStatus, available}
use open_ocpp_simu.Float.{FloatOps}

pub data ConnectorType : Type 0 where
  ac dc : ConnectorType

pub record ConnectorData (F M : Type 0) : Type 0 where
  pub id : ℕ
  pub status : ChargePointStatus
  pub id_tag : Text
  pub parent_id_tag : Text
  pub max_setpoint : F
  pub ocpp_setpoint : F
  pub setpoint : F
  pub car_consumption_l1 : F
  pub car_consumption_l2 : F
  pub car_consumption_l3 : F
  pub car_cable_capacity : F
  pub car_ready : Bool
  -- milliseconds of the steady clock
  pub preparing_start : ℕ
  pub fault_pending : Bool
  pub unavailable_pending : Bool
  pub meter : M

-- The default constructor. It leaves the pointer as it is, and `status()` is the first status.
unfoldable pub new_connector : {F M : Type 0} ⦃f : FloatOps F⦄ → M → ConnectorData F M
new_connector ⦃f⦄ meter = record {
  id = 0;
  status = available;
  id_tag = [];
  parent_id_tag = [];
  max_setpoint = f.nought;
  ocpp_setpoint = f.nought;
  setpoint = f.nought;
  car_consumption_l1 = f.nought;
  car_consumption_l2 = f.nought;
  car_consumption_l3 = f.nought;
  car_cable_capacity = f.nought;
  car_ready = true;
  preparing_start = 0;
  fault_pending = false;
  unavailable_pending = false;
  meter = meter;
}
