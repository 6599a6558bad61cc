-- ===== src/Sim/Setpoints.antt =====
-- `computeSetpoints`.
pub mod Bounds
use open_ocpp_simu.Common.{
  Bool, true, false, ◌&&◌, List, [], ◌∷◌, map, Option, none, some, if◌then◌else◌,
}
use open_ocpp_simu.Ocpp.{
  ChargePointStatus, charging, ChargingRateUnitType, amperes, watts, StackCall, Stack,
}
use open_ocpp_simu.Connector.{ConnectorType, ac, dc}
use open_ocpp_simu.Float.{FloatOps}
use open_ocpp_simu.Sim.World.{Connector, M, ◌>>=◌, pure}

-- The setpoint of the whole charge point and the two optional setpoints, declared before the loop.
pub record Limits (F : Type 0) : Type 0 where
  pub whole : F
  pub charge_point_setpoint : Option F
  pub connector_setpoint : Option F

abbrev pub rate_unit : ConnectorType → ChargingRateUnitType
rate_unit ac = amperes
rate_unit dc = watts

abbrev pub is_charging : ChargePointStatus → Bool
is_charging charging = true
is_charging _ = false

module _ {F : Type 0} ⦃f : FloatOps F⦄ where
  -- A setpoint that is set and lower takes the place of the limit.
  abbrev pub lowered : Option F → F → F
  lowered none limit = limit
  lowered (some v) limit = if f.lt v limit then v else limit

  -- The body of the first loop, with the answer of the stack.
  unfoldable pub apply_answer :
      Bool × Option F × Option F → Limits F → Connector F → Connector F × Limits F
  apply_answer (found, cp, con) l c = (
    record c { ocpp_setpoint = if found then lowered con c.max_setpoint else c.max_setpoint },
    record {
      whole = if found then lowered cp l.whole else l.whole;
      charge_point_setpoint = cp;
      connector_setpoint = con;
    },
  )

  unfoldable pub get_setpoint : Stack F → Limits F → Connector F → M F (Bool × Option F × Option F)
  get_setpoint s l c w =
      let unit = rate_unit c.meter.current_out_type in
      some (
        s.setpoints w.calls c.id l.charge_point_setpoint l.connector_setpoint unit,
        record w { calls = StackCall.get_setpoint c.id unit ∷ w.calls },
      )

  -- The first loop.
  unfoldable pub read_setpoints :
      Stack F → List (Connector F) → Limits F → M F (List (Connector F) × Limits F)
  read_setpoints s [] l = pure ([], l)
  read_setpoints s (c ∷ cs) l = do
    answer ← get_setpoint s l c
    let q = apply_answer answer l c
    rest ← read_setpoints s cs q.1
    pure (q.0 ∷ rest.0, rest.1)

  unfoldable pub limit_by_cable : Connector F → Connector F
  limit_by_cable c = record c {
    setpoint =
        if f.lt c.car_cable_capacity c.ocpp_setpoint then c.car_cable_capacity else c.ocpp_setpoint;
  }

  -- The sum of the positive setpoints of the charging connectors.
  unfoldable pub total_connectors : F → List (Connector F) → F
  total_connectors total [] = total
  total_connectors total (c ∷ cs) =
      total_connectors
        (if is_charging c.status && f.lt f.nought c.setpoint then f.add total c.setpoint else total)
        cs

  unfoldable pub scale : F → Connector F → Connector F
  scale ratio c = record c {
    setpoint = if f.lt f.nought c.setpoint then f.mul c.setpoint ratio else c.setpoint;
  }

  unfoldable pub share : F → List (Connector F) → List (Connector F)
  share whole cs =
      let total = total_connectors f.nought cs in
      if f.lt whole total then map (scale (f.div whole total)) cs else cs

  unfoldable pub floor_setpoint : Connector F → Connector F
  floor_setpoint c = record c { setpoint = f.floor c.setpoint }

  -- The loops after the first one.
  unfoldable pub finish_setpoints : F → List (Connector F) → List (Connector F)
  finish_setpoints whole cs = map floor_setpoint (share whole (map limit_by_cable cs))

  unfoldable pub compute_setpoints : F → Stack F → List (Connector F) → M F (List (Connector F))
  compute_setpoints max_charge_point_setpoint s cs = do
    q ← read_setpoints s cs (record {
      whole = max_charge_point_setpoint;
      charge_point_setpoint = none;
      connector_setpoint = none;
    })
    pure (finish_setpoints q.1.whole q.0)
