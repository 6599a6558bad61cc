-- ===== src/Handler/Limits.antt =====
-- `getLocalLimitationsSchedule`. The order of the statuses, which the Open OCPP library fixes, is a
-- parameter; `at` out of bounds is `none`.
use open_ocpp_simu.Common.{
  ℕ, zero, suc, ◌≡◌, Bool, true, false, not, ◌&&◌, Option, none, some, List, slot, arith,
  if◌then◌else◌,
}
use open_ocpp_simu.Ocpp.{
  ChargePointStatus, charging, finishing, ChargingRateUnitType, amperes, watts,
}
use open_ocpp_simu.Float.{FloatOps, IsIeee, IsNumber, min_float, ◌≼◌}
use open_ocpp_simu.Connector.{ConnectorType, ac, dc}
use open_ocpp_simu.Sim.World.{Connector}

-- The schedule's unit and its only period, which starts at 0.
pub record Limitation (F : Type 0) : Type 0 where
  pub unit : ChargingRateUnitType
  pub limit : F
  pub number_phases : ℕ

abbrev pub unit_of : ConnectorType → ChargingRateUnitType
unit_of ac = amperes
unit_of dc = watts

module _ {F : Type 0} ⦃f : FloatOps F⦄
    (is_before : ChargePointStatus → ChargePointStatus → Bool) where
  -- The cable limits a connector that charges, or is suspended.
  unfoldable pub local_limit : Connector F → F
  local_limit c =
      if not (is_before c.status charging) && is_before c.status finishing
      then min_float c.max_setpoint c.car_cable_capacity
      else c.max_setpoint

  abbrev pub limitation : Connector F → Limitation F
  limitation c = record {
    unit = unit_of c.meter.current_out_type;
    limit = local_limit c;
    number_phases = c.meter.phases_count;
  }

  unfoldable pub get_local_limitations_schedule :
      ℕ → List (Connector F) → Option (Bool × Option (Limitation F))
  get_local_limitations_schedule zero cs = some (false, none)
  get_local_limitations_schedule (suc i) cs = elim (slot cs (suc i)) [
    | none ↦ none
    | some c ↦ some (true, some (limitation c))
  ]

  -- A connector is limited to its maximum, and while it charges to the cable's capacity.
  pub local_limit-le :
      (c : Connector F)
      → IsIeee F
      → IsNumber c.max_setpoint
      → IsNumber c.car_cable_capacity
      → (local_limit c ≼ c.max_setpoint)
        × (is_before c.status charging ≡ false
            → is_before c.status finishing ≡ true
            → local_limit c ≼ c.car_cable_capacity)
  unfolding local_limit min_float
  local_limit-le c laws a b =
      let below = laws.lt-eq-not-le c.car_cable_capacity c.max_setpoint b a in
      let less = laws.le_of_lt c.car_cable_capacity c.max_setpoint in
      (ground (arith, below, less), ground (arith, below, less))
