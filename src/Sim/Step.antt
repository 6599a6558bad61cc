-- ===== src/Sim/Step.antt =====
-- The state machine of a connector: the `switch` of `loop`.
use open_ocpp_simu.Common.{◌+◌, Bool, false, not, ◌&&◌, [], is_empty, leb, if◌then◌else◌}
use open_ocpp_simu.Ocpp.{
  ChargePointStatus, available, preparing, charging, suspended_evse, suspended_ev, finishing,
  reserved, unavailable, faulted, other_error, StackCall, Stack,
}
use open_ocpp_simu.Float.{FloatOps}
use open_ocpp_simu.Sim.World.{
  Connector, M, ◌>>=◌, ◌>>◌, pure, call, clock, start_transaction, notify, is_authorized,
}
use open_ocpp_simu.Sim.IdTag.{
  with_tags, is_plugged, is_valid_id_tag_present, is_transaction_stop_condition,
}

module _ {F : Type 0} ⦃f : FloatOps F⦄ where
  -- `setpoint == 0.f`
  abbrev pub is_limited : Connector F → Bool
  is_limited c = f.eq c.setpoint f.nought

  -- The last two branches of `Available` and of `Reserved`.
  unfoldable pub fault_or_unavailable : Connector F → M F (Connector F)
  fault_or_unavailable c =
      if c.fault_pending
      then notify c faulted
      else if c.unavailable_pending
      then notify c unavailable
      else pure c

  unfoldable pub step_available : Stack F → Connector F → M F (Connector F)
  step_available s c = if is_plugged c then notify c preparing else (do
    valid ← is_valid_id_tag_present s c false
    if valid.0 then notify valid.1 preparing else fault_or_unavailable valid.1)

  -- `Preparing` looks for an id tag first, and a valid one restarts the time-out.
  unfoldable pub present_tag : Stack F → Connector F → M F (Connector F)
  present_tag s c =
      if is_empty c.id_tag
      then (do
        valid ← is_valid_id_tag_present s c false
        now ← clock s
        pure (if valid.0 then record valid.1 { preparing_start = now } else valid.1))
      else pure c

  unfoldable pub start_charge : Stack F → Connector F → M F (Connector F)
  start_charge s c = do
    answer ← start_transaction s c.id c.id_tag
    if is_authorized answer
        then (if is_limited c
            then notify c suspended_evse
            else if not c.car_ready
            then notify c suspended_ev
            else notify c charging)
        else pure (with_tags c [] [])

  -- `(now - connector.preparing_start) >= connectionTimeOut()`
  unfoldable pub check_timeout : Stack F → Connector F → M F (Connector F)
  check_timeout s c = do
    now ← clock s
    if leb (s.connection_time_out + c.preparing_start) now then notify c available else pure c

  unfoldable pub leave_preparing : Stack F → Connector F → M F (Connector F)
  leave_preparing s c =
      if is_plugged c && not (is_empty c.id_tag)
      then start_charge s c
      else if not (is_plugged c) && is_empty c.id_tag
      then notify c available
      else if c.fault_pending
      then notify c preparing
      else check_timeout s c

  unfoldable pub step_preparing : Stack F → Connector F → M F (Connector F)
  step_preparing s c = do d ← present_tag s c; leave_preparing s d

  unfoldable pub leave_suspended_evse : Connector F → M F (Connector F)
  leave_suspended_evse c =
      if not (is_limited c)
      then (if not c.car_ready then notify c suspended_ev else notify c charging)
      else pure c

  unfoldable pub leave_suspended_ev : Connector F → M F (Connector F)
  leave_suspended_ev c =
      if is_limited c
      then notify c suspended_evse
      else if c.car_ready
      then notify c charging
      else pure c

  unfoldable pub leave_charging : Connector F → M F (Connector F)
  leave_charging c =
      if is_limited c
      then notify c suspended_evse
      else if not c.car_ready
      then notify c suspended_ev
      else pure c

  -- The stop condition comes first in the three statuses of a transaction.
  unfoldable pub step_transaction :
      Stack F → (Connector F → M F (Connector F)) → Connector F → M F (Connector F)
  step_transaction s leave c = do
    stop ← is_transaction_stop_condition s c
    if stop then notify c finishing else leave c

  unfoldable pub step_finishing : Connector F → M F (Connector F)
  step_finishing c =
      if c.fault_pending
      then (do call (StackCall.status_notification c.id faulted other_error); pure c)
      else if not (is_plugged c)
      then notify c available
      else pure c

  unfoldable pub step_reserved : Stack F → Connector F → M F (Connector F)
  step_reserved s c = do
    valid ← is_valid_id_tag_present s c false
    if valid.0 then notify valid.1 preparing else fault_or_unavailable valid.1

  unfoldable pub step_faulted : Connector F → M F (Connector F)
  step_faulted c =
      if not c.fault_pending
      then notify c available
      else if c.unavailable_pending
      then notify c unavailable
      else pure c

  unfoldable pub dispatch : ChargePointStatus → Stack F → Connector F → M F (Connector F)
  dispatch available s c = step_available s c
  dispatch preparing s c = step_preparing s c
  dispatch suspended_evse s c = step_transaction s leave_suspended_evse c
  dispatch suspended_ev s c = step_transaction s leave_suspended_ev c
  dispatch charging s c = step_transaction s leave_charging c
  dispatch finishing s c = step_finishing c
  dispatch reserved s c = step_reserved s c
  dispatch unavailable s c = pure c
  dispatch faulted s c = step_faulted c

  -- One connector, without `computeConsumption`.
  unfoldable pub step : Stack F → Connector F → M F (Connector F)
  step s c = dispatch c.status s c
