-- ===== src/Sim/Loop.antt =====
-- `SimulatedChargePoint::loop`: one iteration of the control loop, less what it prints and its
-- sleeps, and the loop itself over the inputs that the other threads deliver.
use open_ocpp_simu.Common.{
  Bool, true, false, not, ◌&&◌, ◌||◌, Option, none, some, List, [], ◌∷◌, if◌then◌else◌,
}
use open_ocpp_simu.Ocpp.{
  ChargePointStatus, ChargePointStatus-discrete, available, preparing, RegistrationStatus, Stack,
}
use open_ocpp_simu.Float.{FloatOps}
use open_ocpp_simu.Mqtt.{update_data, is_end_of_application}
use open_ocpp_simu.Handler.{is_reset_pending}
use open_ocpp_simu.Sim.World.{
  World, Connector, M, ◌>>=◌, ◌>>◌, pure, clock, reset_id_tag, get_connector_status,
}
use open_ocpp_simu.Sim.IdTag.{with_tags}
use open_ocpp_simu.Sim.Step.{step}
use open_ocpp_simu.Sim.Setpoints.{compute_setpoints}
use open_ocpp_simu.Sim.Consumption.{compute_consumption}

module _ {F : Type 0} ⦃f : FloatOps F⦄ where
  -- The entry into a new status.
  unfoldable pub enter_status : Stack F → ChargePointStatus → Connector F → M F (Connector F)
  enter_status s available c = do
    reset_id_tag c.id
    pure (record (with_tags c [] []) { status = available })
  enter_status s preparing c = do
    now ← clock s
    pure (record c { preparing_start = now; status = preparing })
  enter_status s status c = pure (record c { status = status })

  unfoldable pub refresh_status : Stack F → Connector F → M F (Connector F)
  refresh_status s c = do
    status ← get_connector_status s c.id
    elim (ChargePointStatus-discrete status c.status) [
      | yes _ ↦ pure c
      | no _ ↦ enter_status s status c
    ]

  -- A `for` loop over the connectors.
  unfoldable pub for_each :
      (Connector F → M F (Connector F)) → List (Connector F) → M F (List (Connector F))
  for_each body [] = pure []
  for_each body (c ∷ cs) = do d ← body c; rest ← for_each body cs; pure (d ∷ rest)

  -- The next status of a connector, then its consumption.
  unfoldable pub run_connector : Stack F → Connector F → M F (Connector F)
  run_connector s c = do d ← step s c; pure (compute_consumption d)

  -- `mqtt.updateData(connectors)`
  unfoldable pub update_connectors : List (Connector F) → M F (List (Connector F))
  update_connectors cs w = elim (update_data w.mqtt cs) [ none ↦ none | some ds ↦ some (ds, w) ]

  -- The part of an iteration that works on the connectors.
  unfoldable pub operate : F → Stack F → List (Connector F) → M F (List (Connector F))
  operate max_charge_point_setpoint s cs = do
    refreshed ← for_each (refresh_status s) cs
    limited ← compute_setpoints max_charge_point_setpoint s refreshed
    updated ← update_connectors limited
    for_each (run_connector s) updated

-- The local variables of the loop. `status_str` is `none` for `Disconnected`.
pub record LoopVars : Type 0 where
  pub status_published : Bool
  pub ocpp_connected : Bool
  pub ocpp_status : RegistrationStatus
  pub status_str : Option RegistrationStatus

abbrev pub new_loop_vars : LoopVars
new_loop_vars = record {
  status_published = false;
  ocpp_connected = false;
  ocpp_status = RegistrationStatus.rejected;
  status_str = none;
}

pub RegistrationStatus-discrete : Discrete RegistrationStatus
RegistrationStatus-discrete = hlevel

abbrev pub same_status : RegistrationStatus → RegistrationStatus → Bool
same_status a b = elim (RegistrationStatus-discrete a b) [ yes _ ↦ true | no _ ↦ false ]

abbrev pub same_bool : Bool → Bool → Bool
same_bool true b = b
same_bool false b = not b

-- `if ((connected != ocpp_connected) || (status != ocpp_status))`
unfoldable pub observe : Bool → RegistrationStatus → LoopVars → LoopVars
observe connected status v =
    if not (same_bool connected v.ocpp_connected) || not (same_status status v.ocpp_status)
    then record {
      status_published = false;
      ocpp_connected = connected;
      ocpp_status = status;
      status_str = if connected then some status else none;
    }
    else v

-- `publishStatus` is called when the status is not published yet, and its answer is kept. The result
-- has what is published, if something is.
unfoldable pub publish_status :
    (Option RegistrationStatus → Bool) → LoopVars → Option (Option RegistrationStatus) × LoopVars
publish_status publishes v =
    if v.status_published
    then (none, v)
    else (some v.status_str, record v { status_published = publishes v.status_str })

-- The status part of an iteration, in both of its copies.
unfoldable pub report_status :
    (Option RegistrationStatus → Bool)
    → Bool
    → RegistrationStatus
    → LoopVars
    → Option (Option RegistrationStatus) × LoopVars
report_status publishes connected status v = publish_status publishes (observe connected status v)

-- The conditions of the two loops.
unfoldable pub is_over : {F : Type 0} → World F → Bool
is_over w = is_end_of_application w.mqtt || is_reset_pending w.handler

unfoldable pub keeps_waiting : {F : Type 0} → Stack F → World F → Bool
keeps_waiting s w =
    not (is_over w) && not (same_status (s.registration_status w.calls) RegistrationStatus.accepted)
