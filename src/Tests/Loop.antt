-- ===== src/Tests/Loop.antt =====
-- The control loop at concrete inputs.
use open_ocpp_simu.Common.{
  ℕ, zero, suc, ◌+◌, ◌<◌, ◌≤◌, ◌≡◌, refl, Bool, true, false, Option, some, List, [], ◌∷◌, map, All,
  get_elem?, arith, if◌then◌else◌,
}
use open_ocpp_simu.Ocpp.{
  local, available, preparing, charging, finishing, local, StackCall, no_error,
}
use open_ocpp_simu.Float.{Hundredths, ◌≼◌, Hundredths-IsIeee, hundredths}
use open_ocpp_simu.Meter.{set_consumptions}
use open_ocpp_simu.Meter.Laws.{IsSized}
use open_ocpp_simu.Mqtt.{pending_id_tag}
use open_ocpp_simu.Sim.World.{World, Connector, is_accepted}
use open_ocpp_simu.Sim.IdTag.{with_tags, is_transaction_stop_condition, is_valid_id_tag_present}
use open_ocpp_simu.Sim.Step.{step}
use open_ocpp_simu.Sim.Permitted.{Permitted, Adds}
use open_ocpp_simu.Sim.Safety.{step-Permitted}
use open_ocpp_simu.Sim.Runs.{Fits, SameShape}
use open_ocpp_simu.Sim.Loop.{operate}
use open_ocpp_simu.Sim.Rounds.{AllFit, operate_total}
use open_ocpp_simu.Sim.Later.{AllLater}
use open_ocpp_simu.Sim.Setpoints.{compute_setpoints, is_charging}
use open_ocpp_simu.Sim.Setpoints.Bounds.{IsLimited, compute_setpoints-IsLimited}
use open_ocpp_simu.Sim.Consumption.{IsMeasured, compute_consumption, compute_consumption_lem}
use open_ocpp_simu.Sim.Tags.{is_transaction_stop_condition_local, is_valid_id_tag_present_local}
use open_ocpp_simu.Sim.Behaviour.{
  NoFault, notified, with_notifications, step_transaction_lem, step-preparing_not_faulted,
}
use open_ocpp_simu.Tests.Data.{tag, meter, with_meter, connector, stack, mqtt, handler, world}

pub Fits-world : Fits 1 world
Fits-world = ground arith

meter-IsSized : IsSized meter
meter-IsSized = ground arith

-- The world after the id tag is used up and the transaction is stopped.
abbrev stopped : World Hundredths
stopped = record {
  calls = StackCall.stop_transaction 1 tag local ∷ StackCall.authorize 1 tag ∷ [];
  mqtt = record mqtt { connectors = with_meter tt available [] ∷ [] };
  handler = handler;
}

-- Whatever a pass over a charging connector returns, its calls are permitted.
step-Permitted_example :
    let c = connector charging in
    let after : World Hundredths = record stopped {
      calls = StackCall.status_notification 1 finishing no_error ∷ stopped.calls;
    } in
    Adds (Permitted c charging) [] after.calls
unfolding step open_ocpp_simu.Sim.Step.dispatch open_ocpp_simu.Sim.Step.step_transaction
    open_ocpp_simu.Sim.World.notify is_transaction_stop_condition
    open_ocpp_simu.Sim.World.id_tag_pending open_ocpp_simu.Mqtt.is_id_tag_pending
    open_ocpp_simu.Common.slot open_ocpp_simu.Sim.IdTag.local_stop
    open_ocpp_simu.Sim.World.id_tag_of pending_id_tag open_ocpp_simu.Sim.World.authorize
    open_ocpp_simu.Sim.World.reset_id_tag open_ocpp_simu.Mqtt.reset_id_tag_pending
    open_ocpp_simu.Common.modify_slot open_ocpp_simu.Sim.World.stop_transaction
step-Permitted_example =
    step-Permitted stack (connector charging) world
      (record stopped {
        calls = StackCall.status_notification 1 finishing no_error ∷ stopped.calls;
      })
      (connector charging) refl

operate_total_example :
    let cs = connector charging ∷ [] in
    (r : List (Connector Hundredths) × World Hundredths) × (operate (some 3200) stack cs world
      ≡ some r)
    × SameShape world r.1
    × AllLater cs r.0
    × AllFit r.0 r.1
operate_total_example =
    operate_total (some 3200) stack (connector charging ∷ []) world (Fits-world, tt)

compute_setpoints-IsLimited_example :
    (r : List (Connector Hundredths) × World Hundredths) × (compute_setpoints
        (some 3200)
        stack
        (connector charging ∷ [])
        world
      ≡ some r)
    × All IsLimited r.0
compute_setpoints-IsLimited_example =
    compute_setpoints-IsLimited Hundredths-IsIeee (some 3200) stack (connector charging ∷ []) world
      (record { not_negative = λ calls id cp con unit h. refl }) refl
      (record { amount = 32; max_cast = refl; cable_number = refl }, tt)

abbrev car : Hundredths
car = some 1000

compute_consumption_lem_example :
    let c = connector charging in
    (is_charging c.status ≡ true → car ≼ c.setpoint)
    × (is_charging c.status ≡ false → car ≡ hundredths.nought)
    × IsSized (compute_consumption c).meter
unfolding compute_consumption open_ocpp_simu.Sim.Consumption.phase_consumptions set_consumptions
    open_ocpp_simu.Float.min_float
compute_consumption_lem_example =
    compute_consumption_lem Hundredths-IsIeee (connector charging) 0 (some 1000) meter-IsSized
      (record { l1_number = refl; l2_number = refl; l3_number = refl; setpoint_number = refl })
      (omega arith) (omega arith) refl

step_transaction_lem_example :
    let c = connector charging in
    step stack c world ≡ some (c, with_notifications 1 (notified charging c true) stopped)
unfolding is_transaction_stop_condition open_ocpp_simu.Sim.World.id_tag_pending
    open_ocpp_simu.Mqtt.is_id_tag_pending open_ocpp_simu.Common.slot
    open_ocpp_simu.Sim.IdTag.local_stop open_ocpp_simu.Sim.World.id_tag_of pending_id_tag
    open_ocpp_simu.Sim.World.authorize open_ocpp_simu.Sim.World.reset_id_tag
    open_ocpp_simu.Mqtt.reset_id_tag_pending open_ocpp_simu.Common.modify_slot
    open_ocpp_simu.Sim.World.stop_transaction
step_transaction_lem_example =
    step_transaction_lem stack (connector charging) world stopped true tt refl

is_valid_id_tag_present_local_example :
    (d : Connector Hundredths) × (v : World Hundredths) × (is_valid_id_tag_present stack
        (connector available)
        false
        world
      ≡ some ((true, d), v))
    × (v.calls ≡ StackCall.authorize 1 tag ∷ [])
    × (pending_id_tag v.mqtt 1 ≡ some [])
    × (v.handler ≡ handler)
    × (d ≡ with_tags (connector available) tag [])
unfolding pending_id_tag open_ocpp_simu.Common.slot
is_valid_id_tag_present_local_example =
    is_valid_id_tag_present_local stack (connector available) world tag false Fits-world refl refl

is_transaction_stop_condition_local_example :
    (v : World Hundredths) × (is_transaction_stop_condition stack (connector charging) world
      ≡ some (true, v))
    × (v.calls ≡ StackCall.stop_transaction 1 tag local ∷ StackCall.authorize 1 tag ∷ [])
    × (pending_id_tag v.mqtt 1 ≡ some [])
    × (v.handler ≡ handler)
unfolding pending_id_tag open_ocpp_simu.Common.slot
is_transaction_stop_condition_local_example =
    is_transaction_stop_condition_local stack (connector charging) world tag Fits-world refl refl

-- A connector that waits for the car, which has an id tag and a fault.
abbrev waiting : Connector Hundredths
waiting = record (connector preparing) { fault_pending = true; car_cable_capacity = some 0 }

step-preparing_not_faulted_example :
    Adds NoFault [] (StackCall.status_notification 1 preparing no_error ∷ [])
unfolding step open_ocpp_simu.Sim.Step.dispatch open_ocpp_simu.Sim.Step.step_preparing
    open_ocpp_simu.Sim.Step.present_tag open_ocpp_simu.Sim.Step.leave_preparing
    open_ocpp_simu.Sim.World.notify
step-preparing_not_faulted_example =
    step-preparing_not_faulted stack waiting waiting world
      (record world { calls = StackCall.status_notification 1 preparing no_error ∷ [] }) refl refl
