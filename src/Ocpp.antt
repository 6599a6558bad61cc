-- ===== src/Ocpp.antt =====
-- What the simulator sees of the Open OCPP stack (an external library): the OCPP enumerations that
-- it names, and `IChargePoint` as an oracle. Every call on the stack is recorded, and an answer may
-- depend on the calls made before.
use open_ocpp_simu.Common.{ℕ, Bool, Option, List, Text}

pub data ChargePointStatus : Type 0 where
  available preparing charging suspended_evse suspended_ev finishing reserved unavailable faulted :
      ChargePointStatus

pub ChargePointStatus-discrete : Discrete ChargePointStatus
ChargePointStatus-discrete = hlevel

pub data RegistrationStatus : Type 0 where
  accepted pending rejected : RegistrationStatus

pub data AuthorizationStatus : Type 0 where
  accepted blocked expired invalid concurrent_tx : AuthorizationStatus

pub data Reason : Type 0 where
  local remote ev_disconnected other : Reason

pub data ChargePointErrorCode : Type 0 where
  no_error other_error : ChargePointErrorCode

pub data ChargingRateUnitType : Type 0 where
  amperes watts : ChargingRateUnitType

-- The calls on `IChargePoint`, with the arguments that the simulator gives.
pub data StackCall : Type 0 where
  get_registration_status : StackCall
  get_connector_status : ℕ → StackCall
  status_notification : ℕ → ChargePointStatus → ChargePointErrorCode → StackCall
  authorize : ℕ → Text → StackCall
  start_transaction : ℕ → Text → StackCall
  stop_transaction : ℕ → Text → Reason → StackCall
  get_setpoint : ℕ → ChargingRateUnitType → StackCall

-- Newest first.
abbrev pub Calls : Type 0
Calls = List StackCall

-- The answers of the stack, of the clock and of the configuration, given the calls so far.
pub record Stack (F : Type 0) : Type 0 where
  pub registration_status : Calls → RegistrationStatus
  pub connector_status : Calls → ℕ → ChargePointStatus
  -- the status and the parent id tag, which is passed by reference
  pub authorizes : Calls → ℕ → Text → Text → AuthorizationStatus × Text
  pub starts : Calls → ℕ → Text → AuthorizationStatus
  -- the result, and the two optional setpoints, which are passed by reference
  pub setpoints :
      Calls → ℕ → Option F → Option F → ChargingRateUnitType → Bool × Option F × Option F
  pub now : Calls → ℕ
  pub authorize_remote_tx_requests : Bool
  pub connection_time_out : ℕ
